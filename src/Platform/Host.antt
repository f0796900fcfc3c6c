-- ===== src/Platform/Host.antt =====
-- platform/platform.go with platform_linux.go, platform_darwin.go and platform_windows.go: `Host`. The
-- answers of the system are arguments; an error is `none`.
use weaveplatform_sdk.Base.{
  ℕ, ◌≡◌, refl, ap, ◌∙◌, List, [], Option, none, some, arith, Bytes, codes,
}
use weaveplatform_sdk.Platform.{Info, fill}
use weaveplatform_sdk.Platform.Release.{values, last_or, fill_lem}
use weaveplatform_sdk.Platform.Registry.{
  Registry, fill_windows, FitsIn, versioned, from_registry, fill_windows_lem,
}

-- The system that is built for, with what it answers: the lines of /etc/os-release; the two values of
-- sysctl; the registry's key.
pub data Machine : Type 0 where
  linux : Option (List Bytes) → Machine
  darwin : Option Bytes → Option Bytes → Machine
  windows : Option Registry → Machine

-- `runtime.GOOS`
unfoldable pub os_name : Machine → Bytes
os_name (Machine.linux release) = codes "linux"
os_name (Machine.darwin version build) = codes "darwin"
os_name (Machine.windows key) = codes "windows"

unfoldable pub fill_hostname : Option Bytes → Info → Info
fill_hostname none info = info
fill_hostname (some name) info = record info { hostname = name }

unfoldable pub fill_linux : Option (List Bytes) → Info → Info
fill_linux none info = info
fill_linux (some lines) info = fill lines info

unfoldable pub fill_darwin : Option Bytes → Option Bytes → Info → Info
fill_darwin none none info = info
fill_darwin none (some b) info = record info { build = b }
fill_darwin (some v) none info = record info { version = v }
fill_darwin (some v) (some b) info = record info { version = v; build = b }

-- `fill`; `none` is a panic.
unfoldable pub fill_machine : Option Bytes → Machine → Info → Option Info
unfolding fill_linux fill_darwin fill_windows
fill_machine name (Machine.linux release) info = some (fill_linux release (fill_hostname name info))
fill_machine name (Machine.darwin version build) info =
    some (fill_darwin version build (fill_hostname name info))
fill_machine name (Machine.windows key) info = fill_windows key (fill_hostname name info)

-- `Host`
unfoldable pub host : Bytes → Option Bytes → Machine → Option Info
unfolding os_name fill_machine
host arch name machine =
    fill_machine name machine
      (record { os = os_name machine; arch = arch; version = []; build = []; hostname = [] })

abbrev pub or_empty : Option Bytes → Bytes
or_empty none = []
or_empty (some v) = v

abbrev pub no_facts : Info
no_facts = record { os = []; arch = []; version = []; build = []; hostname = [] }

-- What the system told of its version and its build.
abbrev pub release_of : Option (List Bytes) → Bytes × Bytes
release_of none = ([], [])
release_of (some lines) =
    (last_or [] (values (codes "VERSION_ID=") lines), last_or [] (values (codes "BUILD_ID=") lines))

abbrev pub told : Machine → Bytes × Bytes
told (Machine.linux release) = release_of release
told (Machine.darwin version build) = (or_empty version, or_empty build)
told (Machine.windows key) =
    ((from_registry key no_facts).version, (from_registry key no_facts).build)

abbrev pub FitsMachine : Machine → Type 0
FitsMachine (Machine.linux release) = Unit {0}
FitsMachine (Machine.darwin version build) = Unit {0}
FitsMachine (Machine.windows key) = FitsIn key

abbrev pub described : Bytes → Option Bytes → Machine → Info
described arch name machine = record {
  os = os_name machine;
  arch = arch;
  version = (told machine).0;
  build = (told machine).1;
  hostname = or_empty name;
}

abbrev unversioned : Bytes → Bytes → Bytes → Info
unversioned os arch hostname = record {
  os = os;
  arch = arch;
  version = [];
  build = [];
  hostname = hostname;
}

module _ (os arch hostname : Bytes) where
  -- The registry's part does not depend on the rest.
  versioned_apart :
      (a b : Option ℕ) (c : Option Bytes)
      → versioned a b c (unversioned os arch hostname) ≡ record (unversioned os arch hostname) {
        version = (versioned a b c no_facts).version;
        build = (versioned a b c no_facts).build;
      }
  versioned_apart none b c = refl
  versioned_apart (some a) none c = refl
  versioned_apart (some a) (some b) none = refl
  versioned_apart (some a) (some b) (some c) = refl

  from_registry_apart :
      (key : Option Registry)
      → from_registry key (unversioned os arch hostname) ≡ record (unversioned os arch hostname) {
        version = (from_registry key no_facts).version;
        build = (from_registry key no_facts).build;
      }
  from_registry_apart none = refl
  from_registry_apart (some k) = versioned_apart k.major k.minor k.build

  fill_windows_told :
      (key : Option Registry)
      → FitsIn key
      → fill_windows key (unversioned os arch hostname)
        ≡ some (record (unversioned os arch hostname) {
          version = (from_registry key no_facts).version;
          build = (from_registry key no_facts).build;
        })
  fill_windows_told key fits =
      fill_windows_lem key (unversioned os arch hostname) fits ∙ ap some (from_registry_apart key)

-- Whatever the system answers, with integers of 64 bits in the registry, `Host` does not panic and
-- gives a description: the system and the architecture that are built for; the host's name, if the
-- system tells it; and the version and the build. On Linux these are the last values of their keys in
-- os-release, without quotes, on macOS what sysctl answers, and on Windows the two numbers as `%d`
-- prints them, and the build, with dots between, and the build, if the registry has all three. What is
-- not told is empty.
pub host_lem :
    (arch : Bytes) (name : Option Bytes) (machine : Machine)
    → FitsMachine machine
    → host arch name machine ≡ some (described arch name machine)
unfolding host fill_machine fill_linux fill_darwin fill_hostname
host_lem arch name (Machine.linux none) fits = ground arith
host_lem arch none (Machine.linux (some lines)) fits = ap some (fill_lem lines _)
host_lem arch (some n) (Machine.linux (some lines)) fits = ap some (fill_lem lines _)
host_lem arch name (Machine.darwin version build) fits = ground arith
host_lem arch none (Machine.windows key) fits = fill_windows_told (codes "windows") arch [] key fits
host_lem arch (some n) (Machine.windows key) fits =
    fill_windows_told (codes "windows") arch n key fits
