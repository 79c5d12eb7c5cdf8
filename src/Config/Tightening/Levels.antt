-- ===== src/Config/Tightening/Levels.antt =====
-- The cutoffs of a merge, with the level presets applied.
use apohara_agentguard.Prelude.{Text, Option, none, some, ◌≡◌, refl, arith, ok}
use apohara_agentguard.Verdict.Severity.{IsTighter}
use apohara_agentguard.Verdict.{Thresholds}
use apohara_agentguard.Config.{Config, effective_thresholds, level_preset, of_level, preset_or}
use apohara_agentguard.Config.Tightening.{TighteningPresence, Cutoffs, merge_thresholds}

preset_or_again :
    (o : Option Thresholds) (t : Thresholds) → preset_or o (preset_or o t) ≡ preset_or o t
preset_or_again none t = refl
preset_or_again (some preset) t = refl

of_level_again : (l : Option Text) (t : Thresholds) → of_level l (of_level l t) ≡ of_level l t
of_level_again none t = refl
of_level_again (some l) t = preset_or_again (level_preset l) t

pub merge_thresholds-IsTighter :
    (base overlay : Config) (p : TighteningPresence) {c : Cutoffs}
    → merge_thresholds base overlay p ≡ ok c
    → IsTighter (of_level c.level c.thresholds) (effective_thresholds base)
unfolding merge_thresholds effective_thresholds
merge_thresholds-IsTighter base overlay p h =
    ground (arith, of_level_again overlay.level overlay.thresholds)
