-- ===== src/HostData/StoreLaws.antt =====
-- modulesdk/testkit/hostdata.go: the stub's store keeps what the client expects of a store.
use weaveplatform_sdk.Base.{◌≡◌, ◌≢◌, ◌↔◌, true, none, some, Bytes, same, if◌then◌else◌}
use weaveplatform_sdk.Base.Dict.{In, has_prefix, lookup-assign, lookup-remove, In-keys_with}
use weaveplatform_sdk.StoreClient.{StoreService}
use weaveplatform_sdk.HostData.{HostData, store_get, store_put, store_delete, store_keys}

pub store_get-put :
    (k j v : Bytes) (d : HostData)
    → store_get j (store_put k v d) ≡ (if same k j then some v else store_get j d)
unfolding store_get store_put
store_get-put k j v d = lookup-assign k j v d.store

pub store_get-delete :
    (k j : Bytes) (d : HostData)
    → store_get j (store_delete k d) ≡ (if same k j then none else store_get j d)
unfolding store_get store_delete
store_get-delete k j d = lookup-remove k j d.store

pub In-store_keys :
    (p k : Bytes) (d : HostData)
    → In k (store_keys p d) ↔ ((has_prefix p k ≡ true) × (store_get k d ≢ none))
unfolding store_get store_keys
In-store_keys p k d = In-keys_with p k d.store

-- The stub as the store service of the clients.
abbrev pub stub_store : StoreService HostData
stub_store = record {
  get = store_get;
  put = store_put;
  delete = store_delete;
  list = store_keys;
  get-put = store_get-put;
  get-delete = store_get-delete;
  in-list = In-store_keys;
}
