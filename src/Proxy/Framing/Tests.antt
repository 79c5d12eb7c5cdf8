-- ===== src/Proxy/Framing/Tests.antt =====
-- Runs of src/proxy/framing.rs.
use apohara_agentguard.Prelude.{
  ℕ, ◌≡◌, refl, codes, Text, Option, none, some, List, [], ◌∷◌, ◌++◌, ok, err, arith,
}
use apohara_agentguard.Proxy.Framing.{read_line, write_line, as_bytes, max_line_exceeded}
use apohara_agentguard.Proxy.Framing.Lines.{read_line-write_line, read_line-oversize}

-- A decoder of plain ASCII.
abbrev ascii : List ℕ → Option Text
ascii bytes = some bytes

strips_return : read_line ascii 9 none (codes "ab\r\ncd") ≡ (ok (some (codes "ab")), codes "cd")
unfolding read_line
strips_return = refl

accepts_last_line : read_line ascii 9 none (codes "cd") ≡ (ok (some (codes "cd")), [])
unfolding read_line
accepts_last_line = refl

read_line-write_line_example :
    read_line ascii 9 none (write_line [] (codes "{}") ++ codes "next")
    ≡ (ok (some (codes "{}")), codes "next")
unfolding as_bytes apohara_agentguard.Prelude.contains_char
    apohara_agentguard.Prelude.Words.utf8_bytes
read_line-write_line_example =
    read_line-write_line ascii 9 none (codes "{}") (codes "next") refl refl (omega arith) refl

read_line-oversize_example :
    (read_line ascii 3 none (codes "abcd" ++ codes "e\n")).0 ≡ err max_line_exceeded
read_line-oversize_example =
    read_line-oversize ascii 3 none (codes "abcd") (codes "e\n") refl (omega arith)
