-- ===== src/StubCore/Session.antt =====
-- modulesdk/testkit/stubcore.go with modulesdk/serve.go and lifecycle.go: the first Init that the stub
-- of core drives on a module that it has launched.
use weaveplatform_sdk.Base.{◌≡◌, ◌↔◌, refl, inr, Option, none, Bytes}
use weaveplatform_sdk.Errors.{GoError}
use weaveplatform_sdk.Handshake.{Line}
use weaveplatform_sdk.Lifecycle.{Module, InitResponse, Reply}
use weaveplatform_sdk.Lifecycle.Handlers.{new_server, configure, init}
use weaveplatform_sdk.Lifecycle.Response.{init_iff}
use weaveplatform_sdk.Serve.{System, Wake, serve}
use weaveplatform_sdk.StubCore.{advertised, launch_env, launch}
use weaveplatform_sdk.StubCore.Launch.{IsReady, answer_of, launched_protocol}
use weaveplatform_sdk.StubCore.Harness.{StubCore, init_request}

module _ (token host_addr sock_dir : Bytes) (sys : System) (wake : Wake) {S : Type 0}
    (m : Module S) where
  -- Let the stub's launch of a module that runs `serve` give a line, where core's window is a window,
  -- the token and the addresses are set, and the module can listen at an address that fits the line.
  -- Then the first Init that the stub drives is not refused for its protocol: it succeeds exactly when
  -- the stub was told the module's own id, the module takes the configuration if it wants one, the host
  -- is reached, and the module's own Init succeeds.
  pub init-launch_iff :
      (core : StubCore) (dial : Line → Option GoError) (addr : Bytes) (l : Line) (t : S)
      (host : Option GoError)
      → IsReady token host_addr sock_dir m.id sys wake (advertised core.window) addr
      → launch core.window dial (
          answer_of
            (serve m.id sys (launch_env (advertised core.window) token host_addr sock_dir) wake))
        ≡ inr l
      → ((r : InitResponse) × ((init m (init_request core l) host (new_server m t)).1 ≡ Reply.ok r))
        ↔ ((core.module_id ≡ m.id)
            × ((configure m (init_request core l) (new_server m t)).1 ≡ none)
            × (host ≡ none)
            × ((m.init (configure m (init_request core l) (new_server m t)).0.module_state).2
                ≡ none))
  unfolding init_request
  init-launch_iff core dial addr l t host ready launched =
      let tests = (init_iff m (init_request core l) host (new_server m t)).0 in
      (
        λ done.
            let w = tests.1 done in (w.same_module, w.config_taken, w.dialed_host, w.module_inited),
        λ h. tests.0 (record {
          is_created = refl;
          same_module = h.0;
          same_protocol =
              launched_protocol token host_addr sock_dir m.id sys wake dial core.window addr l ready
                launched;
          config_taken = h.1;
          dialed_host = h.2;
          module_inited = h.3;
        }),
      )
