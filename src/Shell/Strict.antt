-- ===== src/Shell/Strict.antt =====
-- `autobuild_switch_strict_mode` of native/bashinterface.cpp.
use autobuild.Base.{Bool, List, [], ◌∷◌, Bytes, codes, if◌then◌else◌}

-- What is asked of bash: to set an option, or to run the builtin `trap` on a command and signals.
pub data Change : Type 0 where
  sets_option : Bytes → Bool → Change
  sets_trap : Bytes → List Bytes → Change

unfoldable pub autobuild_switch_strict_mode : Bool → List Change
autobuild_switch_strict_mode enable =
    sets_option (codes "errexit") enable
    ∷ sets_option (codes "errtrace") enable
    ∷ sets_trap (if enable then codes "abdie" else codes "-") (codes "ERR" ∷ codes "EXIT" ∷ [])
    ∷ []
