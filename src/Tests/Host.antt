-- ===== src/Tests/Host.antt =====
-- The store client over the stub's store, the topics and the policy stream at concrete inputs.
use weaveplatform_sdk.Base.{◌≡◌, ◌≢◌, ◌↔◌, true, List, [], ◌∷◌, none, arith, Bytes, codes}
use weaveplatform_sdk.Base.Dict.{In, has_prefix}
use weaveplatform_sdk.StoreClient.{Rpc, Reply, get, put, delete, list}
use weaveplatform_sdk.StoreClient.Namespaces.{isolated}
use weaveplatform_sdk.StoreClient.View.{Op, view, map_run, client_run, client_refines_map, list_iff}
use weaveplatform_sdk.HostData.{new_host_data, topic_matches}
use weaveplatform_sdk.HostData.StoreLaws.{stub_store}
use weaveplatform_sdk.HostData.Topics.{Matches, topic_matches_iff}

isolated_example :
    ((get stub_store Rpc.answered
        (codes "b")
        (codes "k")
        (put stub_store Rpc.answered (codes "a") (codes "k") (codes "v") new_host_data).1).0
      ≡ (get stub_store Rpc.answered (codes "b") (codes "k") new_host_data).0)
    × ((get stub_store Rpc.answered
          (codes "b")
          (codes "k")
          (delete stub_store Rpc.answered (codes "a") (codes "k") new_host_data).1).0
        ≡ (get stub_store Rpc.answered (codes "b") (codes "k") new_host_data).0)
isolated_example =
    isolated stub_store Rpc.answered (codes "a") (codes "b") (codes "k") (codes "k") (codes "v")
      new_host_data ((ground arith), omega arith) ((ground arith), omega arith) (ground arith)

abbrev ops : List Op
ops = Op.put_op (codes "k") (codes "v") ∷ Op.get_op (codes "k") ∷ Op.delete_op (codes "k") ∷ []

client_refines_map_example :
    client_run stub_store (codes "a") ops new_host_data
    ≡ map_run ops (view stub_store (codes "a") new_host_data)
client_refines_map_example = client_refines_map stub_store (codes "a") ops new_host_data

list_iff_example :
    (keys : List Bytes) × ((list stub_store Rpc.answered (codes "a") (codes "k") new_host_data).0
      ≡ Reply.ok keys)
    × ((k : Bytes)
        → In k keys ↔ (
            (has_prefix (codes "k") k ≡ true)
            × (view stub_store (codes "a") new_host_data k ≢ none)))
list_iff_example = list_iff stub_store (codes "a") (codes "k") new_host_data

topic_matches_iff_example :
    (topic_matches (codes "sysinfo.*" ∷ []) (codes "sysinfo.cpu") ≡ true)
    ↔ ((p : Bytes) × In p (codes "sysinfo.*" ∷ []) × Matches p (codes "sysinfo.cpu"))
topic_matches_iff_example = topic_matches_iff (codes "sysinfo.*" ∷ []) (codes "sysinfo.cpu")
