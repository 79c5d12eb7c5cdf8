-- ===== src/Hook/PathGuard/Guarded.antt =====
-- src/hook/pathguard.rs: the deny rules on the components of a cleaned path.
use apohara_agentguard.Prelude.{
  Text, codes, Bool, true, false, Option, none, some, List, [], ◌∷◌, ◌≡◌, ◌⊎◌, inl, inr, refl, ap,
  ◌∙◌, arith, any, eq_text, split_char, starts_with, strip_prefix, Bool-cases,
}
use apohara_agentguard.Verdict.{allow, block}
use apohara_agentguard.Hook.PathGuard.{
  join, is_absolute_path, clean_components, clean_path, expand_home, fold_backslashes, has_ssh_dir,
  is_etc_path, secret_read_target, sensitive_write_target, normalize, block_write, block_read,
  check_normalized, check_path,
}
use apohara_agentguard.Hook.PathGuard.Again.{
  any-split_char-join, clean_components-NoSlash, clean_path-absolute, clean_path-relative,
}

-- An `.ssh` among the components is what `has_ssh_dir` finds.
has_ssh_dir-clean_path :
    (path : Text)
    → has_ssh_dir (clean_path path) ≡ any (λ c. eq_text c (codes ".ssh")) (clean_components path)
has_ssh_dir-clean_path path = elim (Bool-cases (is_absolute_path path)) [
  | inl e ↦
      ap has_ssh_dir (clean_path-absolute path e)
      ∙ has_ssh_dir-slash (join (clean_components path))
      ∙ joined
  | inr e ↦ ap has_ssh_dir (clean_path-relative path e) ∙ joined
]
  where
    has_ssh_dir-slash : (s : Text) → has_ssh_dir (b'/' ∷ s) ≡ has_ssh_dir s
    has_ssh_dir-slash s = unfold has_ssh_dir split_char eq_text in refl

    joined :
        has_ssh_dir (join (clean_components path))
        ≡ any (λ c. eq_text c (codes ".ssh")) (clean_components path)
    joined =
        unfold has_ssh_dir in
        any-split_char-join (λ c. eq_text c (codes ".ssh")) (clean_components path)
          (unfold eq_text in refl) (clean_components-NoSlash path)

is_etc_path-join : (cs : List Text) → is_etc_path (b'/' ∷ join (codes "etc" ∷ cs)) ≡ true
unfolding is_etc_path join starts_with strip_prefix eq_text
is_etc_path-join [] = refl
is_etc_path-join (c ∷ cs) = refl

block_write-cases :
    (tool path : Text) (sensitive secret : Option Text)
    → (((block_write tool path sensitive secret).tier ≡ block)
        ⊎ ((block_write tool path sensitive secret).tier ≡ allow)
          × ((block_read tool path secret).tier ≡ allow))
      × (((block_read tool path secret).tier ≡ block)
          ⊎ ((block_read tool path secret).tier ≡ allow))
unfolding block_write block_read
block_write-cases tool path (some reason) (some why) = (inl refl, inl refl)
block_write-cases tool path (some reason) none = (inl refl, inr refl)
block_write-cases tool path none (some why) = (inl refl, inl refl)
block_write-cases tool path none none = (inr (refl, refl), inr refl)

check_normalized_ssh :
    (tool path norm : Text) (write : Bool)
    → has_ssh_dir norm ≡ true
    → (check_normalized tool path norm write).tier ≡ block
unfolding check_normalized block_write block_read secret_read_target sensitive_write_target
check_normalized_ssh tool path norm true h = rw h
check_normalized_ssh tool path norm false h = rw h

check_normalized_etc :
    (tool path norm : Text) (write : Bool)
    → is_etc_path norm ≡ true
    → (check_normalized tool path norm write).tier ≡ block
unfolding check_normalized block_write block_read secret_read_target sensitive_write_target
check_normalized_etc tool path norm true h = ground (arith, Bool-cases (has_ssh_dir norm))
check_normalized_etc tool path norm false h = ground (arith, Bool-cases (has_ssh_dir norm))

module _ (to_lowercase : Text → Text) (home : Option Text) where
  -- The path as it is before it is cleaned.
  abbrev pub spelled : Text → Text
  spelled path = to_lowercase (fold_backslashes (expand_home home path))

  -- A path with a component `.ssh`, once `.` and `..` are resolved, is refused to every tool, to
  -- read and to write.
  pub check_path_ssh :
      (tool path : Text) (write : Bool)
      → any (λ c. eq_text c (codes ".ssh")) (clean_components (spelled path)) ≡ true
      → (check_path to_lowercase home tool path write).tier ≡ block
  unfolding check_path normalize
  check_path_ssh tool path write h =
      check_normalized_ssh tool path (clean_path (spelled path)) write
        (has_ssh_dir-clean_path (spelled path) ∙ h)

  -- An absolute path whose first component is `etc`, once `.` and `..` are resolved, is refused
  -- to every tool, to read and to write.
  pub check_path_etc :
      (tool path : Text) (write : Bool) (below : List Text)
      → is_absolute_path (spelled path) ≡ true
      → clean_components (spelled path) ≡ codes "etc" ∷ below
      → (check_path to_lowercase home tool path write).tier ≡ block
  unfolding check_path normalize
  check_path_etc tool path write below a h =
      check_normalized_etc tool path (clean_path (spelled path)) write (
        ap is_etc_path (clean_path-absolute (spelled path) a ∙ ap (λ cs. b'/' ∷ join cs) h)
        ∙ is_etc_path-join below)

  -- The guard of a write is never weaker than that of a read, and neither gives anything but an
  -- allow or a block.
  pub check_path_write :
      (tool path : Text)
      → (((check_path to_lowercase home tool path true).tier ≡ block)
          ⊎ ((check_path to_lowercase home tool path true).tier ≡ allow)
            × ((check_path to_lowercase home tool path false).tier ≡ allow))
        × (((check_path to_lowercase home tool path false).tier ≡ block)
            ⊎ ((check_path to_lowercase home tool path false).tier ≡ allow))
  unfolding check_path check_normalized
  check_path_write tool path =
      let norm = normalize to_lowercase home path in
      block_write-cases tool path (sensitive_write_target norm) (secret_read_target norm)
