-- ===== src/Platform.antt =====
-- platform/platform_windows.go and platform_linux.go: how the facts about the system are printed and
-- read. The registry and the file are not of this repository: the lines of /etc/os-release, as
-- `bufio.Scanner` gives them, are an argument.
pub mod Printing
pub mod Release
pub mod Registry
pub mod Host
pub mod Directories
use weaveplatform_sdk.Base.{
  ℕ, zero, suc, ◌+◌, ◌/◌, ◌%◌, Bool, true, false, ◌==◌, List, [], ◌∷◌, ◌++◌, Option, none, some,
  Bytes, codes, cut_prefix, reverse, if◌then◌else◌,
}

-- The loop of `itoa`, with `i` bytes of the buffer left; `none` is the panic of an index out of
-- range. The loop's round takes a byte, so `i` bounds the rounds.
unfoldable pub itoa_loop : ℕ → ℕ → Bytes → Option Bytes
itoa_loop zero v out = if v == 0 then some out else none
itoa_loop (suc i) v out =
    let rest = itoa_loop i (v / 10) (((b'0' + v % 10) % 256) ∷ out) in
    if v == 0 then some out else rest

unfoldable pub itoa : ℕ → Option Bytes
unfolding itoa_loop
itoa v = if v == 0 then some (codes "0") else itoa_loop 20 v []

pub record Info : Type 0 where
  pub os : Bytes
  pub arch : Bytes
  pub version : Bytes
  pub build : Bytes
  pub hostname : Bytes

-- `strings.Trim(v, "\"")`.
unfoldable pub drop_quotes : Bytes → Bytes
drop_quotes [] = []
drop_quotes (c ∷ s) = let rest = drop_quotes s in if c == b'"' then rest else c ∷ s

unfoldable pub trim_quotes : Bytes → Bytes
unfolding drop_quotes
trim_quotes s = reverse (drop_quotes (reverse (drop_quotes s)))

-- The two tests of one line.
unfoldable pub fill_version : Bytes → Info → Info
fill_version line info = elim (cut_prefix (codes "VERSION_ID=") line) [
  | none ↦ info
  | some v ↦ record info { version = trim_quotes v }
]

unfoldable pub fill_build : Bytes → Info → Info
fill_build line info = elim (cut_prefix (codes "BUILD_ID=") line) [
  | none ↦ info
  | some v ↦ record info { build = trim_quotes v }
]

unfoldable pub fill : List Bytes → Info → Info
unfolding fill_version fill_build
fill [] info = info
fill (line ∷ lines) info = fill lines (fill_build line (fill_version line info))
