-- ===== src/Serve/Exit.antt =====
-- modulesdk/serve.go: how `serve` ends, and what it has done by then.
use weaveplatform_sdk.Base.{
  ◌≡◌, ◌↔◌, ◌≢◌, ◌⊎◌, inl, inr, refl, Bool, true, false, List, [], ◌∷◌, none, arith, Bytes, map,
  same_iff,
}
use weaveplatform_sdk.Handshake.{
  Window, HandshakeError, Result, ok, err, format, contains, parse_window,
  exit_protocol_unsupported,
}
use weaveplatform_sdk.Lifecycle.{protocol_version}
use weaveplatform_sdk.Serve.{
  Env, System, Wake, network, negotiate, module_addr, wake_error, serve, exit_code,
}

-- The window that the environment has, and that it is for the module's protocol.
abbrev pub Advertises : Env → Bool → Type 0
Advertises env takes =
    (w : Window) × (parse_window env.protocol_min env.protocol_max ≡ ok w)
    × (contains w protocol_version ≡ takes)

abbrev pub announce : System → Bytes → Bytes
announce sys addr =
    format (record { protocol = protocol_version; network = network sys; addr = addr })

-- The server as a whole, and the module, at each address.
abbrev pub reported : Bytes → List Bytes → List Bytes
reported id [] = []
reported id (addr ∷ addrs) = [] ∷ id ∷ reported id addrs

Result-cases :
    (r : Result Window) → ((e : HandshakeError) × (r ≡ err e)) ⊎ ((w : Window) × (r ≡ ok w))
Result-cases (ok w) = inr (w, refl)
Result-cases (err e) = inl (e, refl)

module _ (id : Bytes) (sys : System) (env : Env) (wake : Wake) where
  -- `Serve` exits with 78 exactly when the environment holds a valid window that leaves the module's
  -- protocol out.
  pub serve_exit_iff :
      (exit_code (serve id sys env wake).failure ≡ exit_protocol_unsupported) ↔ Advertises env false
  unfolding serve negotiate wake_error module_addr exit_code
  serve_exit_iff = elim (Result-cases (parse_window env.protocol_min env.protocol_max)) [
    | inl (e, he) ↦ (λ h. ground arith, λ h. ground arith)
    | inr (w, hw) ↦ (λ h. (w, hw, ground arith), λ h. ground arith)
  ]

  -- `serve` prints the one line for each address that it listens on, and nothing else, and reports the
  -- server and the module as serving at each. And it listens, on the address that `moduleAddr` gives,
  -- exactly when the window takes the protocol, the token and the host address are set, and the system
  -- lets it listen there.
  pub serve_announces :
      (addr : Bytes)
      → ((serve id sys env wake).stdout ≡ map (announce sys) (serve id sys env wake).listening)
        × ((serve id sys env wake).healthy ≡ reported id (serve id sys env wake).listening)
        × (((serve id sys env wake).listening ≡ addr ∷ []) ↔ (
            Advertises env true
            × (env.token ≢ [])
            × (env.host_addr ≢ [])
            × (module_addr sys env id ≡ inr addr)
            × (sys.listen addr ≡ none)))
  unfolding serve negotiate
  serve_announces addr = elim (Result-cases (parse_window env.protocol_min env.protocol_max)) [
    | inl (e, he) ↦ (ground arith, ground arith, (λ h. ground arith, λ h. ground arith))
    | inr (w, hw) ↦
        let no_token = same_iff env.token [] in
        let no_host = same_iff env.host_addr [] in
        (
          ground arith,
          ground arith,
          (
            λ h. ((w, hw, ground arith), ground arith, ground arith, ground arith, ground arith),
            λ h. ground arith,
          ),
        )
  ]
