-- ===== src/Platform/Release.antt =====
-- platform/platform_linux.go: what `fill` finds in /etc/os-release.
use weaveplatform_sdk.Base.{◌≡◌, refl, List, [], ◌∷◌, none, some, arith, Bytes, codes, cut_prefix}
use weaveplatform_sdk.Platform.{Info, trim_quotes, fill_version, fill_build, fill}

-- The values, without their quotes, of the lines that begin with a key.
pub values : Bytes → List Bytes → List Bytes
values key [] = []
values key (line ∷ lines) = elim (cut_prefix key line) [
  | none ↦ values key lines
  | some v ↦ trim_quotes v ∷ values key lines
]

abbrev pub last_or : Bytes → List Bytes → Bytes
last_or d [] = d
last_or d (v ∷ vs) = last_or v vs

-- The version is the last value under VERSION_ID and the build the last under BUILD_ID, each without
-- its quotes; where there is none, it is what it was. The other facts stay.
pub fill_lem :
    (lines : List Bytes) (info : Info)
    → fill lines info ≡ record info {
      version = last_or info.version (values (codes "VERSION_ID=") lines);
      build = last_or info.build (values (codes "BUILD_ID=") lines);
    }
unfolding fill values
fill_lem [] info = refl
fill_lem (line ∷ lines) info =
    ground (arith, fill_lem lines (fill_build line (fill_version line info)))
