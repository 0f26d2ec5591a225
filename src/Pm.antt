-- ===== src/Pm.antt =====
-- native/pm.cpp: a dependency in autobuild's notation, such as `glibc>=2.36`, is rewritten into
-- the notation of dpkg. `VersionOp` is declared in native/common.hpp.
pub mod Builddep
pub mod Dependency
pub mod Reference
mod Tests
use autobuild.Base.{
  ℕ, Bool, true, false, ◌&&◌, List, [], ◌∷◌, ◌++◌, ◌==◌, if◌then◌else◌, Bytes, codes,
}

pub data VersionOp : Type 0 where
  invalid lt le gt ge eq ne : VersionOp

-- The locals of `autobuild_to_deb_version`; `state` is `parser_state`.
pub record Parser : Type 0 where
  pub name : Bytes
  pub op : VersionOp
  pub version : Bytes
  pub state : ℕ

abbrev pub found : VersionOp → Parser → Parser
found o p = record p { op = o; state = 10 }

-- One round of the loop: the `switch` on one character.
unfoldable pub step : Parser → ℕ → Parser
step p c =
    if c == b'<'
    then if p.state == 0
      then record p { state = 1 }
      else if p.state == 1
      then found VersionOp.lt p
      else p
    else if c == b'>'
    then if p.state == 0
      then record p { state = 2 }
      else if p.state == 2
      then found VersionOp.gt p
      else p
    else if c == b'='
    then if p.state == 0
      then record p { state = 3 }
      else if p.state == 1
      then found VersionOp.le p
      else if p.state == 2
      then found VersionOp.ge p
      else if p.state == 3
      then found VersionOp.eq p
      else p
    else record p {
      name = if p.state == 0 then p.name ++ c ∷ [] else p.name;
      version = if p.state == 10 then p.version ++ c ∷ [] else p.version;
    }

unfoldable pub run : Parser → Bytes → Parser
run p [] = p
run p (c ∷ cs) = run (step p c) cs

abbrev pub initial : Parser
initial = record { name = []; op = VersionOp.invalid; version = []; state = 0 }

-- dpkg's spelling of an operator.
unfoldable pub deb_op : VersionOp → Bytes
deb_op VersionOp.lt = codes "<<"
deb_op VersionOp.gt = codes ">>"
deb_op VersionOp.le = codes "<="
deb_op VersionOp.ge = codes ">="
deb_op VersionOp.eq = codes "="
deb_op VersionOp.invalid = []
deb_op VersionOp.ne = []

-- The `(op version)` that stands behind the name, if an operator was read.
unfoldable pub constraint : VersionOp → Bytes → Bytes
unfolding deb_op
constraint VersionOp.invalid v = []
constraint o v = codes " (" ++ (deb_op o ++ (codes " " ++ (v ++ codes ")")))

unfoldable pub autobuild_to_deb_version : Bytes → Bytes
unfolding step run constraint
autobuild_to_deb_version s = let p = run initial s in p.name ++ constraint p.op p.version
