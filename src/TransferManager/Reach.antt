-- ===== src/TransferManager/Reach.antt =====
-- backend/src/transfer/transfer_manager.cpp: what holds after any calls and any work of the jobs.
use space_station.Prelude.{
  >>=-eq-ok, All, Bool, Bool-cases, List, Option, Result, [], ap, err, false, guard, inl, inr, none,
  ok, refl, some, subst, suc, sym, true, zero, ℕ, ◌>>◌, ◌∙◌, ◌∷◌, ◌≡◌,
}
use mathlib.Core.Bool.{false≢true}
use space_station.Prelude.Bytes.{bytes_eq_sound}
use space_station.Prelude.Dict.{lookup, insert, lookup-insert}
use space_station.TransferManager.{
  Manager, Job, end_job, first_error, start, ServerConfig, FileProgress, completed, queued, ℤ,
  Server, Error, Bytes, validate_server_config, running, update_server_config, note_progress,
  bytes_eq, start_server, failed, stop_server, start_client_job, started, is_running,
  open_listeners, cannot_prepare, add_listeners, configured, finish_stop,
}

pub record Sound (m : Manager) : Type 0 where
  -- The configuration that is shown is the one of the manager's server, if that runs, and it is valid.
  pub current :
      (s : Server)
      → m.server ≡ some s
      → s.running ≡ true
      → (s.config ≡ m.server_config) × (validate_server_config s.config ≡ ok tt)
  -- A server that still runs while it is being stopped has a valid configuration too.
  pub winding_down :
      All (λ (s : Server). s.running ≡ true → validate_server_config s.config ≡ ok tt) m.stopping
  -- A server of the manager that does not run listens nowhere.
  pub silent : (s : Server) → m.server ≡ some s → s.running ≡ false → s.listeners ≡ []
  -- A job that is completed has no file with an error.
  pub clean :
      (id : Bytes) (j : Job)
      → lookup id m.jobs ≡ some j
      → j.status ≡ completed
      → All (λ (f : FileProgress). f.error ≡ []) j.files

-- What the thread of a job does, one lock of the mutex at a time.
pub data Works : Job → Job → Type 0 where
  begins : {j : Job} → j.status ≡ queued → Works j (record j { status = running })
  progresses :
      {j : Job}
      → j.status ≡ running
      → (p : FileProgress) → Works j (record j { files = note_progress p j.files })
  ends :
      {j : Job}
      → j.status ≡ running
      → (r : Result Bytes (List FileProgress)) → Works j (end_job r j)

pub data Step : Manager → Manager → Type 0 where
  updates :
      {m : Manager} (parsed : Result Error ServerConfig) → Step m (update_server_config parsed m).0
  starts :
      {m : Manager} (prepared : Bool) (opens : ℤ → Bool) → Step m (start_server prepared opens m).0
  stops : {m : Manager} → Step m (stop_server m)
  finishes : {m : Manager} (n : ℕ) → Step m (record m { stopping = finish_stop n m.stopping })
  sends : {m : Manager} (id : Bytes) → lookup id m.jobs ≡ none → Step m (start_client_job id m)
  works :
      {m : Manager} (id : Bytes) (j k : Job)
      → lookup id m.jobs ≡ some j
      → Works j k
      → Step m (record m { jobs = insert id k m.jobs })

-- A manager that has just been made from a configuration.
abbrev pub fresh : ServerConfig → Manager
fresh c = record { server_config = c; server = none; stopping = []; jobs = []; saved = none }

pub data Reach (c : ServerConfig) : Manager → Type 0 where
  here : Reach c (fresh c)
  next : {m m' : Manager} → Reach c m → Step m m' → Reach c m'

start-facts :
    (prepared : Bool) (opens : ℤ → Bool) (s : Server)
    → s.running ≡ false
    → ((start prepared opens s).0.config ≡ s.config)
      × ((start prepared opens s).0.running ≡ true → validate_server_config s.config ≡ ok tt)
      × ((start prepared opens s).0.running ≡ false → (start prepared opens s).0.listeners ≡ [])
unfolding start started open_listeners
start-facts prepared opens s stopped = rw stopped (go (open_listeners prepared opens s.config) refl)
  where
    go :
        (m : Result Error (List (ℤ × Bool)))
        → open_listeners prepared opens s.config ≡ m
        → ((started s m).0.config ≡ s.config)
          × ((started s m).0.running ≡ true → validate_server_config s.config ≡ ok tt)
          × ((started s m).0.running ≡ false → (started s m).0.listeners ≡ [])
    go (err e) h = (refl, λ k. cc, λ k. refl)
    go (ok listeners) h =
        let (_, valid, _) =
          >>=-eq-ok (validate_server_config s.config)
            (λ _. guard prepared cannot_prepare >> add_listeners opens s.config) h in
        (refl, λ k. valid, λ k. cc)

first_error-none :
    (fs : List FileProgress) → first_error fs ≡ none → All (λ (f : FileProgress). f.error ≡ []) fs
unfolding first_error
first_error-none [] h = tt
first_error-none (f ∷ fs) h = elim (Bool-cases (bytes_eq f.error [])) [
  | inl fine ↦ (bytes_eq_sound f.error [] fine, first_error-none fs (rw fine at h))
  | inr bad ↦ let k : ◌≡◌ {A = Option Bytes} (some f.error) none = rw bad at h in absurd cc
]

abbrev Clean : Job → Type 0
Clean j = j.status ≡ completed → All (λ (f : FileProgress). f.error ≡ []) j.files

end_job-Clean : (r : Result Bytes (List FileProgress)) (j : Job) → Clean (end_job r j)
unfolding end_job
end_job-Clean (err what) j e = cc
end_job-Clean (ok results) j e = go (first_error results) refl e
  where
    go :
        (o : Option Bytes)
        → first_error results ≡ o
        → (end_job (ok results) j).status ≡ completed
        → All (λ (f : FileProgress). f.error ≡ []) (end_job (ok results) j).files
    go none h k = rw (h, end_job) (first_error-none results h)
    go (some x) h k = let q : failed ≡ completed = rw (h, end_job) at k in absurd cc

Works-Clean : {j k : Job} → Works j k → Clean k
Works-Clean (begins h) e = cc
Works-Clean (progresses h p) e = cc
Works-Clean (ends h r) e = end_job-Clean r _ e

-- A change of the server's side alone.
put_server-Sound :
    (m : Manager) (o : Option Server) (c : ServerConfig) (w : Option ServerConfig)
    → ((s : Server)
        → o ≡ some s
        → ((s.running ≡ true → (s.config ≡ c) × (validate_server_config s.config ≡ ok tt))
            × (s.running ≡ false → s.listeners ≡ [])))
    → Sound m
    → Sound (record m { server_config = c; server = o; saved = w })
put_server-Sound m o c w h v = record {
  current = λ s e r. (h s e).0 r;
  silent = λ s e r. (h s e).1 r;
  winding_down = v.winding_down;
  clean = v.clean;
}

put_job-Sound :
    (m : Manager) (id : Bytes) (k : Job)
    → Clean k
    → Sound m
    → Sound (record m { jobs = insert id k m.jobs })
put_job-Sound m id k c v = record {
  current = v.current;
  silent = v.silent;
  winding_down = v.winding_down;
  clean = λ i j h e. elim (Bool-cases (bytes_eq id i)) [
    | inl same ↦
        let q : ◌≡◌ {A = Option Job} (some k) (some j) =
          rw same at (sym (lookup-insert id i k m.jobs) ∙ h) in
        let f : k ≡ j = cc in subst Clean f c e
    | inr other ↦
        let q : lookup i m.jobs ≡ some j = rw other at (sym (lookup-insert id i k m.jobs) ∙ h) in
        v.clean i j q e
  ];
}

not_running :
    (m : Manager) (s : Server) → is_running m.server ≡ false → m.server ≡ some s → s.running ≡ false
not_running m s h e = sym (ap is_running e) ∙ h

update-Sound :
    (parsed : Result Error ServerConfig) (m : Manager)
    → Sound m
    → Sound (update_server_config parsed m).0
unfolding update_server_config configured
update-Sound parsed m v = elim (Bool-cases (is_running m.server)) [
  | inl runs ↦ rw runs v
  | inr stopped ↦ rw stopped (go stopped parsed)
]
  where
    go : is_running m.server ≡ false → (p : Result Error ServerConfig) → Sound (configured p m).0
    go h (err e) = v
    go h (ok config) =
        put_server-Sound m m.server config (some config)
          (λ s e. (λ r. absurd (false≢true (sym (not_running m s h e) ∙ r)), v.silent s e)) v

start-Sound :
    (prepared : Bool) (opens : ℤ → Bool) (m : Manager)
    → Sound m
    → Sound (start_server prepared opens m).0
unfolding start_server
start-Sound prepared opens m v = elim (Bool-cases (is_running m.server)) [
  | inl runs ↦ rw runs v
  | inr stopped ↦
      let made : Server = record { config = m.server_config; running = false; listeners = [] } in
      let (same, valid, silent) = start-facts prepared opens made refl in
      rw stopped (
        put_server-Sound m (some (start prepared opens made).0) m.server_config m.saved
          (λ s e.
            let f : (start prepared opens made).0 ≡ s = cc in
            subst
              (λ (x : Server).
                (x.running ≡ true
                  → (x.config ≡ m.server_config) × (validate_server_config x.config ≡ ok tt))
                × (x.running ≡ false → x.listeners ≡ []))
              f (λ r. (same, ap validate_server_config same ∙ valid r), silent))
          v)
]

abbrev Fine : Server → Type 0
Fine s = s.running ≡ true → validate_server_config s.config ≡ ok tt

stop-Sound : (m : Manager) → Sound m → Sound (stop_server m)
unfolding stop_server
stop-Sound m v = record {
  current = λ s e. cc;
  silent = λ s e. cc;
  winding_down = go m.server (λ s e r. (v.current s e r).1);
  clean = v.clean;
}
  where
    go :
        (o : Option Server)
        → ((s : Server) → o ≡ some s → Fine s)
        → All Fine (elim o [ none ↦ m.stopping | some s ↦ s ∷ m.stopping ])
    go none h = v.winding_down
    go (some s) h = (h s refl, v.winding_down)

finish-Fine : (n : ℕ) (ss : List Server) → All Fine ss → All Fine (finish_stop n ss)
unfolding finish_stop
finish-Fine n [] h = tt
finish-Fine zero (s ∷ ss) h = h.1
finish-Fine (suc n) (s ∷ ss) h = (h.0, finish-Fine n ss h.1)

Step-Sound : {m m' : Manager} → Step m m' → Sound m → Sound m'
Step-Sound (updates {m = m} parsed) v = update-Sound parsed m v
Step-Sound (starts {m = m} prepared opens) v = start-Sound prepared opens m v
Step-Sound (stops {m = m}) v = stop-Sound m v
Step-Sound (finishes {m = m} n) v = record {
  current = v.current;
  silent = v.silent;
  winding_down = finish-Fine n m.stopping v.winding_down;
  clean = v.clean;
}
Step-Sound (sends {m = m} id new) v = unfold start_client_job in put_job-Sound m id _ (λ e. cc) v
Step-Sound (works {m = m} id j k l w) v = put_job-Sound m id k (Works-Clean w) v

-- After any calls, with StopServer in its two steps, and any work of the jobs: if the server that the
-- manager holds runs, it has the configuration that the manager shows, and that is a valid one; if it
-- does not run, it listens nowhere; a server that was taken out to be stopped, and still runs, has a
-- valid configuration, though perhaps not the one that is shown; and a job that is completed has no
-- file with an error.
pub Reach-Sound : (c : ServerConfig) {m : Manager} → Reach c m → Sound m
Reach-Sound c here = record {
  current = λ s e. cc;
  silent = λ s e. cc;
  winding_down = tt;
  clean = λ id j h. absurd (unfold lookup in cc);
}
Reach-Sound c (next r step) = Step-Sound step (Reach-Sound c r)
