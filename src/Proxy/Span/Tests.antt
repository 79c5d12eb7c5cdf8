-- ===== src/Proxy/Span/Tests.antt =====
-- Runs of the scan of src/proxy/spoof.rs.
use apohara_agentguard.Prelude.{◌≡◌, refl, codes, List, [], ◌∷◌, ◌++◌, true, length, ◌+◌}
use apohara_agentguard.Proxy.Span.{
  absent, ambiguous, found, top_level_id_span, splice_span, skip_string,
}
use apohara_agentguard.Proxy.Span.Splice.{splice_span-splice_span, skip_string_escaped_end}

finds_id : top_level_id_span (codes "{\"params\":{\"id\":1},\"id\":7}") ≡ found 24 25
unfolding top_level_id_span skip_string apohara_agentguard.Prelude.eq_text
finds_id = refl

finds_second_id : top_level_id_span (codes "{\"id\":1,\"id\":2}") ≡ ambiguous
unfolding top_level_id_span skip_string apohara_agentguard.Prelude.eq_text
finds_second_id = refl

misses_id_behind_escape :
    top_level_id_span (codes "{\"params\":{\"a\":\"b\\n\"},\"id\":7}") ≡ absent
unfolding top_level_id_span skip_string apohara_agentguard.Prelude.eq_text
misses_id_behind_escape = refl

splice_span-splice_span_example :
    let start = length (codes "{\"id\":") in
    splice_span
      (splice_span
        (codes "{\"id\":" ++ codes "7" ++ codes "}")
        (start, start + length (codes "7"))
        (codes "\"agp-01\""))
      (start, start + length (codes "\"agp-01\""))
      (codes "7")
    ≡ codes "{\"id\":" ++ codes "7" ++ codes "}"
splice_span-splice_span_example =
    splice_span-splice_span (codes "{\"id\":") (codes "7") (codes "}") (codes "\"agp-01\"")

skip_string_escaped_end_example :
    skip_string (b'"' ∷ codes "b" ++ (b'\\' ∷ b'n' ∷ b'"' ∷ (codes "}," ++ b'"' ∷ codes "id\":7}")))
    ≡ b'"' ∷ codes "id\":7}"
skip_string_escaped_end_example =
    skip_string_escaped_end (codes "b") b'n' (codes "},") (codes "id\":7}") refl refl
