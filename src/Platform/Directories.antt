-- ===== src/Platform/Directories.antt =====
-- platform/paths.go and `Paths` of platform_linux.go, platform_darwin.go and platform_windows.go.
-- `filepath.Join` is an argument on Windows.
use weaveplatform_sdk.Base.{◌≡◌, refl, [], ◌++◌, Bytes, codes, same, if◌then◌else◌}

pub record PathSet : Type 0 where
  pub state_dir : Bytes
  pub log_dir : Bytes
  pub run_dir : Bytes
  pub staging_dir : Bytes

-- The system that is built for, with the value of ProgramData on Windows.
pub data Layout : Type 0 where
  linux darwin : Layout
  windows : Bytes → Layout

abbrev pub linux_paths : PathSet
linux_paths = record {
  state_dir = codes "/var/lib/weave";
  log_dir = codes "/var/log/weave";
  run_dir = codes "/run/weave";
  staging_dir = codes "/var/lib/weave/staging";
}

abbrev pub darwin_paths : PathSet
darwin_paths = record {
  state_dir = codes "/Library/Application Support/Weave";
  log_dir = codes "/Library/Logs/Weave";
  run_dir = codes "/var/run/weave";
  staging_dir = codes "/Library/Application Support/Weave/staging";
}

unfoldable pub program_data : Bytes → Bytes
program_data value = if same value [] then codes "C:\\ProgramData" else value

module _ (join : Bytes → Bytes → Bytes) where
  unfoldable pub windows_paths : Bytes → PathSet
  unfolding program_data
  windows_paths value =
      let root = join (program_data value) (codes "Weave") in
      record {
        state_dir = root;
        log_dir = join root (codes "logs");
        run_dir = join root (codes "run");
        staging_dir = join root (codes "staging");
      }

  unfoldable pub paths : Layout → PathSet
  unfolding windows_paths
  paths Layout.linux = linux_paths
  paths Layout.darwin = darwin_paths
  paths (Layout.windows value) = windows_paths value

abbrev pub separator : Layout → Bytes
separator Layout.linux = codes "/"
separator Layout.darwin = codes "/"
separator (Layout.windows value) = codes "\\"

-- Staged artifacts lie in the directory of the durable state, so that they are promoted within it.
pub staging_inside :
    (join : Bytes → Bytes → Bytes) (l : Layout)
    → ((dir : Bytes) → join dir (codes "staging") ≡ dir ++ codes "\\" ++ codes "staging")
    → (paths join l).staging_dir ≡ (paths join l).state_dir ++ separator l ++ codes "staging"
unfolding paths
staging_inside join Layout.linux joins = refl
staging_inside join Layout.darwin joins = refl
staging_inside join (Layout.windows value) joins = joins _
