-- ===== src/Server/Config/Binding.antt =====
-- Which configurations the server takes, and what binding gives (crates/aster_fsd_server/src/server.rs).
use aster_fsd.Prelude.{
  refl, sym, ap, Result, ok, err, none, some, false, List, [], ◌∷◌, ◌≡◌, ◌≢◌, ◌≤◌, ◌↔◌, ◌⊎◌, inl,
  inr, arith, All, any, is_empty, ◌==◌, nat_eq, Option-cases, Result-cases,
}
use aster_fsd.Core.Network.{Network}
use aster_fsd.Server.Config.{
  ListenerConfig, ServerConfig, ServerError, missing_backend, listener_io, BackendRegistry,
  backend_for, Server, new_server, Sockets, BoundListener, socket_text, bind_listener, bind_all,
  bind_rest,
}

-- The configurations that the server takes.
pub record IsValid (config : ServerConfig) : Type 0 where
  pub mailbox : 1 ≤ config.mailbox_capacity
  pub listening : is_empty config.listeners ≡ false
  pub interval : 1 ≤ config.wind_delta_interval_seconds
  pub idle : All (λ (l : ListenerConfig). 1 ≤ l.idle_timeout_seconds) config.listeners

any_zero-All :
    (ls : List ListenerConfig)
    → any (λ l. l.idle_timeout_seconds == 0) ls ≡ false
    → All (λ l. 1 ≤ l.idle_timeout_seconds) ls
any_zero-All [] h = tt
any_zero-All (l ∷ ls) h = (ground arith, any_zero-All ls (ground arith))

All-any_zero :
    (ls : List ListenerConfig)
    → All (λ l. 1 ≤ l.idle_timeout_seconds) ls
    → any (λ l. l.idle_timeout_seconds == 0) ls ≡ false
All-any_zero [] h = refl
All-any_zero (l ∷ ls) (h, hs) = ground (arith, All-any_zero ls hs)

-- A server is made exactly of a configuration with a mailbox capacity, a listener, a wind interval and
-- idle timeouts, none of them zero; it has that configuration, network and registry.
pub new_server_iff :
    (IoError : Type 0) (config : ServerConfig) (network : Network) (registry : BackendRegistry)
    (server : Server)
    → (new_server {IoError = IoError} config network registry ≡ ok server) ↔ (
        IsValid config
        × (server ≡ record { config = config; network = network; registry = registry }))
unfolding new_server
new_server_iff IoError config network registry server = (
  λ h. (
    record {
      mailbox = ground arith;
      listening = ground arith;
      interval = ground arith;
      idle = any_zero-All config.listeners (ground arith);
    },
    ground arith,
  ),
  λ (valid, e).
      let m : (config.mailbox_capacity == 0) ≡ false = ground (arith, valid.mailbox) in
      let w : (config.wind_delta_interval_seconds == 0) ≡ false = ground (arith, valid.interval) in
      rw (m, valid.listening, w, All-any_zero config.listeners valid.idle)
        (ap (λ (s : Server). ok s) (sym e)),
)

module _ (sockets : Sockets) where
  open sockets use {World, Listener, IoError, bind, local_addr}

  -- The listener that a configuration was bound to.
  abbrev pub IsBound : BackendRegistry → ListenerConfig → BoundListener sockets → Type 0
  IsBound registry config b =
      (b.config ≡ config)
      × (backend_for registry config.protocol ≡ some b.backend)
      × (local_addr b.listener ≡ ok b.local_address)
      × ((world : World) × ((bind world (socket_text config)).1 ≡ ok b.listener))

  pub data AllBound (registry : BackendRegistry)
      : List ListenerConfig → List (BoundListener sockets) → Type 0 where
    none_bound : AllBound registry [] []
    next_bound :
        (config : ListenerConfig) (configs : List ListenerConfig) (b : BoundListener sockets)
        (bs : List (BoundListener sockets))
        → IsBound registry config b
        → AllBound registry configs bs
        → AllBound registry (config ∷ configs) (b ∷ bs)

  -- The call whose error this is: binding the configured address, or asking a socket that was bound
  -- there for its own address.
  abbrev pub IsFailure : ListenerConfig → IoError → Type 0
  IsFailure config source =
      ((world : World) × ((bind world (socket_text config)).1 ≡ err source))
      ⊎ ((world : World) × (listener : Listener) × ((bind world (socket_text config)).1
            ≡ ok listener)
          × (local_addr listener ≡ err source))

  -- An error that names a configured listener: the registry has a backend for its dialect and a call
  -- returned the error, or it has none.
  abbrev pub IsRefusal : BackendRegistry → ListenerConfig → ServerError IoError → Type 0
  IsRefusal registry config error =
      ((error ≡ missing_backend config.name) × (backend_for registry config.protocol ≡ none))
      ⊎ ((source : IoError) × (error ≡ listener_io config.name source)
          × (backend_for registry config.protocol ≢ none)
          × IsFailure config source)

  pub data OneRefused (registry : BackendRegistry)
      : List ListenerConfig → ServerError IoError → Type 0 where
    here :
        (config : ListenerConfig) (configs : List ListenerConfig) (error : ServerError IoError)
        → IsRefusal registry config error
        → OneRefused registry (config ∷ configs) error
    there :
        (config : ListenerConfig) (configs : List ListenerConfig) (error : ServerError IoError)
        → OneRefused registry configs error
        → OneRefused registry (config ∷ configs) error

  abbrev OnListener :
      BackendRegistry
      → ListenerConfig
      → Result (BoundListener sockets) (ServerError IoError)
      → Type 0
  OnListener registry config (ok b) = IsBound registry config b
  OnListener registry config (err error) = IsRefusal registry config error

  abbrev pub OnBound :
      BackendRegistry
      → List ListenerConfig
      → Result (List (BoundListener sockets)) (ServerError IoError)
      → Type 0
  OnBound registry configs (ok bounds) = AllBound registry configs bounds
  OnBound registry configs (err error) = OneRefused registry configs error

  bind_listener-OnListener :
      (registry : BackendRegistry) (world : World) (config : ListenerConfig)
      → OnListener registry config (bind_listener sockets registry world config).1
  unfolding bind_listener
  bind_listener-OnListener registry world config =
      elim (Option-cases (backend_for registry config.protocol)) [
        | inl missing ↦ rw (missing, bind_listener) (inl (refl, missing))
        | inr (backend, found) ↦
            rw (found, bind_listener)
              (elim (Result-cases (bind world (socket_text config)).1) [
                | inr (source, e) ↦ rw e (inr (source, refl, (λ h. cc), inl (world, e)))
                | inl (listener, e) ↦ rw e (elim (Result-cases (local_addr listener)) [
                  | inr (source, unknown) ↦
                      rw unknown (inr (source, refl, (λ h. cc), inr (world, listener, e, unknown)))
                  | inl (address, known) ↦ rw known (refl, found, known, (world, e))
                ])
              ])
      ]

  bind_rest-OnBound :
      (registry : BackendRegistry) (config : ListenerConfig) (configs : List ListenerConfig)
      (b : BoundListener sockets)
      (rest : World × Result (List (BoundListener sockets)) (ServerError IoError))
      → IsBound registry config b
      → OnBound registry configs rest.1
      → OnBound registry (config ∷ configs) (bind_rest sockets b rest).1
  unfolding bind_rest
  bind_rest-OnBound registry config configs b (world, ok bs) h hs =
      next_bound config configs b bs h hs
  bind_rest-OnBound registry config configs b (world, err error) h hs =
      there config configs error hs

  -- Binding gives each configured listener, in order, its backend, a socket bound at its address
  -- and the socket's own address, or the error of one of them: its dialect has no backend, or
  -- binding its address or asking the bound socket for its own address returned the error.
  pub bind_all-OnBound :
      (registry : BackendRegistry) (world : World) (configs : List ListenerConfig)
      → OnBound registry configs (bind_all sockets registry world configs).1
  unfolding bind_all
  bind_all-OnBound registry world [] = none_bound
  bind_all-OnBound registry world (config ∷ configs) =
      let first = bind_listener-OnListener registry world config in
      elim (Result-cases (bind_listener sockets registry world config).1) [
        | inr (error, e) ↦ rw (e, bind_all) (here config configs error (rw e at first))
        | inl (b, e) ↦
            rw (e, bind_all)
              (bind_rest-OnBound registry config configs b
                (bind_all sockets registry (bind_listener sockets registry world config).0 configs)
                (rw e at first)
                (bind_all-OnBound registry (bind_listener sockets registry world config).0 configs))
      ]
