-- ===== src/Tests/Platform.antt =====
-- The facts about the system at concrete inputs.
use weaveplatform_sdk.Base.{◌≡◌, refl, List, [], ◌∷◌, Option, some, arith, Bytes, codes, cut_prefix}
use weaveplatform_sdk.Base.Decimal.{format_uint}
use weaveplatform_sdk.Platform.{Info, fill, trim_quotes}
use weaveplatform_sdk.Platform.Registry.{Registry, from_registry}
use weaveplatform_sdk.Platform.Host.{Machine, host, described, host_lem}

abbrev release : List Bytes
release =
    codes "NAME=Debian"
    ∷ codes "VERSION_ID=\"12\""
    ∷ codes "BUILD_ID=rolling"
    ∷ codes "VERSION_ID=13"
    ∷ []

abbrev no_info : Info
no_info = record {
  os = codes "linux";
  arch = codes "amd64";
  version = [];
  build = [];
  hostname = [];
}

release_read :
    fill release no_info ≡ record no_info { version = codes "13"; build = codes "rolling" }
unfolding fill cut_prefix trim_quotes
release_read = refl

abbrev windows_11 : Option Registry
windows_11 = some (record { major = some 10; minor = some 0; build = some (codes "26100") })

host_lem_example :
    host (codes "arm64") (some (codes "pc")) (Machine.windows windows_11)
    ≡ some (described (codes "arm64") (some (codes "pc")) (Machine.windows windows_11))
host_lem_example =
    host_lem (codes "arm64") (some (codes "pc")) (Machine.windows windows_11)
      (omega arith, omega arith)

windows_version :
    from_registry windows_11 no_info
    ≡ record no_info { version = codes "10.0.26100"; build = codes "26100" }
unfolding format_uint
windows_version = refl
