-- ===== src/Cmd/Run/Closing.antt =====
-- The deferred calls of run in cmd/main.go: the client and the directory of the certificate.
use spire_controller_manager.Prelude.{
  ℕ, ◌+◌, if◌then◌else◌, Bool, true, false, List, [], ◌∷◌, ◌≡◌, ◌≢◌, refl, arith,
}
use spire_controller_manager.ManagerConfig.Loader.{Loading}
use spire_controller_manager.Cmd.{Environment, Config}
use spire_controller_manager.Cmd.Run.{
  Call, Deferred, Reply, Event, Outside, Outcome, succeeds, fails, panics, exits, called, undone,
  returned, failed, panicked, exited, close_client, remove_cert_dir, dial_mtls, dial_socket,
  make_cert_dir, unwind, execute, after_call, run, run_calls, push_deferred,
}

-- a call that opens what the undoing closes
unfoldable pub opens : Deferred → Call → ℕ
opens close_client (dial_mtls address) = 1
opens close_client (dial_socket path) = 1
opens remove_cert_dir make_cert_dir = 1
opens d c = 0

unfoldable pub same : Deferred → Deferred → ℕ
same close_client close_client = 1
same remove_cert_dir remove_cert_dir = 1
same d e = 0

-- how many clients have been dialed, or directories made
unfoldable pub acquired : Deferred → List Event → ℕ
unfolding opens
acquired d [] = 0
acquired d (called c succeeds ∷ h) = opens d c + acquired d h
acquired d (called c r ∷ h) = acquired d h
acquired d (undone e ∷ h) = acquired d h

-- how many have been closed, or removed
unfoldable pub released : Deferred → List Event → ℕ
unfolding same
released d [] = 0
released d (called c r ∷ h) = released d h
released d (undone e ∷ h) = same d e + released d h

-- how many are still to be closed
due : Deferred → List Deferred → ℕ
unfolding same
due d [] = 0
due d (e ∷ ds) = same d e + due d ds

pending :
    (d : Deferred) (c : Call) (ds : List Deferred)
    → due d (push_deferred c ds) ≡ opens d c + due d ds
unfolding due opens same
pending close_client c ds = ground arith
pending remove_cert_dir c ds = ground arith

-- everything that was opened is closed
abbrev Balanced : Deferred → Outcome × List Event → Type 0
Balanced d r = released d (r.1) ≡ acquired d (r.1)

unless_exited-Balanced :
    (d : Deferred) (b : Bool) (h : List Event) (rest : Outcome × List Event)
    → (rest.0 ≢ exited → Balanced d rest)
    → (if b then (exited, h) else rest).0 ≢ exited
    → Balanced d (if b then (exited, h) else rest)
unless_exited-Balanced d true h rest k n = absurd (n refl)
unless_exited-Balanced d false h rest k n = k n

module _ (out : Outside) (d : Deferred) where
  unwind-released :
      (o : Outcome) (ds : List Deferred) (h : List Event)
      → acquired d h ≡ due d ds + released d h
      → (unwind out o ds h).0 ≢ exited
      → released d ((unwind out o ds h).1) ≡ acquired d ((unwind out o ds h).1)
  unfolding unwind acquired released due
  unwind-released o [] h e n = omega (arith, e)
  unwind-released o (close_client ∷ ds) h e n =
      unwind-released o ds (undone close_client ∷ h) (omega (arith, e)) n
  unwind-released o (remove_cert_dir ∷ ds) h e n =
      unless_exited-Balanced d (out.remove_fails h) (undone remove_cert_dir ∷ h)
        (unwind out o ds (undone remove_cert_dir ∷ h))
        (unwind-released o ds (undone remove_cert_dir ∷ h) (omega (arith, e))) n

  after_call-released :
      (r : Reply) (c : Call) (ds : List Deferred) (h : List Event) (rest : Outcome × List Event)
      → acquired d h ≡ due d ds + released d h
      → (rest.0 ≢ exited
          → acquired d (called c r ∷ h) ≡ due d (push_deferred c ds) + released d (called c r ∷ h)
          → released d (rest.1) ≡ acquired d (rest.1))
      → (after_call out r ds (called c r ∷ h) rest).0 ≢ exited
      → released d ((after_call out r ds (called c r ∷ h) rest).1)
        ≡ acquired d ((after_call out r ds (called c r ∷ h) rest).1)
  unfolding after_call acquired released
  after_call-released succeeds c ds h rest e k n = k n (omega (arith, e, pending d c ds))
  after_call-released fails c ds h rest e k n = unwind-released failed ds (called c fails ∷ h) e n
  after_call-released panics c ds h rest e k n =
      unwind-released panicked ds (called c panics ∷ h) e n
  after_call-released exits c ds h rest e k n = absurd (n refl)

  execute-released :
      (cs : List Call) (ds : List Deferred) (h : List Event)
      → acquired d h ≡ due d ds + released d h
      → (execute out cs ds h).0 ≢ exited
      → Balanced d (execute out cs ds h)
  unfolding execute
  execute-released [] ds h e n = unwind-released returned ds h e n
  execute-released (c ∷ cs) ds h e n =
      after_call-released (out.reply h c) c ds h
        (execute out cs (push_deferred c ds) (called c (out.reply h c) ∷ h)) e
        (λ m k. execute-released cs (push_deferred c ds) (called c (out.reply h c) ∷ h) k m) n

  -- Whatever run does and however it ends, returning, failing or in a panic, it has closed each client
  -- that was dialed and removed each directory of a certificate that was made, as often as that
  -- happened, unless the process has been ended by a call or because the directory could not be
  -- removed.
  pub run-released :
      {env : Environment} {ld : Loading} (webhooks : Bool) (c : Config env ld)
      → (run out webhooks c []).0 ≢ exited
      → released d ((run out webhooks c []).1) ≡ acquired d ((run out webhooks c []).1)
  unfolding run acquired released due
  run-released webhooks c n = execute-released (run_calls webhooks c) [] [] refl n
