-- ===== src/Incident/Containment.antt =====
-- internal/incident/controller.go: a serious incident is contained on every side, whatever fails on the way.
use pvm.Prelude.{
  ℕ, ◌≤◌, String, ◌≡◌, refl, sym, ap, ◌∙◌, ◌⊎◌, true, false, Option, none, some, ◌==◌,
  text_comparable, nat_comparable, arith, Result, ok, err,
}
use pvm.Prelude.Dict.{get}
use pvm.Audit.Record.{Record}
use pvm.Identity.Broker.{
  Token, has, members, live, Broker, Codec, Env, append_row, persist_locked, image, saved, Content,
}
use pvm.Identity.Broker
use pvm.Identity.Lease.{revoke_all_for_task}
use pvm.Identity.Denied.{denied}
use pvm.Incident.Controller.{
  low, medium, high, critical, Anomaly, Action, block, terminate, quarantine, Error, Hook, Hooks,
  Site, classify, escalate, count_of, audit_raw, incident_row, run_hook, hooked, audited,
  apply_block, apply_pause, apply_preserve, apply_revoke, revoke_tokens, bulk_revoked,
  revoke_outside, record_failure, Stage, then_revoke, then_block, then_pause, then_preserve,
  contain, respond, terminated, end_task, counted, chosen, handle,
}
use pvm.Incident.Sides.{
  after, gated, revoked_broker, revoked_world, contained, revoked_broker-denied,
}

-- `Terminate` comes last, when the action asks for it.
abbrev pub ended {ℓ} : {S : Type ℓ} → Hooks S → Action → String → S → S
ended h terminate task w = after h.terminate_task task w
ended h act task w = w

-- By its severity, or by the number of incidents of its task before it.
abbrev pub IsSerious : Anomaly → ℕ → Type 0
IsSerious a before =
    (a.severity ≡ high)
    ⊎ ((a.severity ≡ critical) ⊎ ((2 ≤ before) × ((a.severity ≡ low) ⊎ (a.severity ≡ medium))))

module _ {ℓ} {S : Type ℓ} (show : Error → String) (c : Codec) (e : Env) where
  hooked-world :
      (s : Site S) (r : S × Result String (Unit {0}))
      → ((hooked show c e s r).0.world ≡ r.0) × ((hooked show c e s r).0.broker ≡ s.broker)
  hooked-world s (w, ok _) = (refl, refl)
  hooked-world s (w, err x) = (refl, refl)

  -- What a stage does to the world and to the broker.
  abbrev Does : Site S → S → Option Broker → Type ℓ
  Does s w b = (s.world ≡ w) × (s.broker ≡ b)

  run_hook-Does :
      (h : Hook S) (task : String) (s : Site S)
      → Does (run_hook show c e h task s).0 (after h task s.world) s.broker
  unfolding run_hook
  run_hook-Does none task s = (refl, refl)
  run_hook-Does (some f) task s = hooked-world s (f task s.world)

  audited-Does :
      (r : Record) (p : Stage S) (w : S) (b : Option Broker)
      → Does p.0 w b
      → Does (audited show c e r p).0 w b
  unfolding audit_raw
  audited-Does r (s, ok _) w b h = h
  audited-Does r (s, err x) w b h = h

  record_failure-Does :
      (task stage : String) (first : Result Error (Unit {0})) (p : Stage S) (w : S)
      (b : Option Broker)
      → Does p.0 w b
      → Does (record_failure show c e task stage first p).0 w b
  unfolding record_failure audit_raw
  record_failure-Does task stage first (s, ok _) w b h = h
  record_failure-Does task stage first (s, err x) w b h = h

  then_block-Does :
      (h : Hooks S) (task : String) (r : Stage S)
      → Does (then_block show c e h task r).0 (after h.block_network task r.0.world) r.0.broker
  unfolding apply_block
  then_block-Does h task (s, first) =
      record_failure-Does task "block" first (apply_block show c e h task s) _ _ (
        audited-Does _ (run_hook show c e h.block_network task s) _ _
          (run_hook-Does h.block_network task s))

  then_pause-Does :
      (h : Hooks S) (task : String) (r : Stage S)
      → Does (then_pause show c e h task r).0 (after h.freeze_runtime task r.0.world) r.0.broker
  unfolding apply_pause
  then_pause-Does h task (s, first) =
      record_failure-Does task "pause" first (apply_pause show c e h task s) _ _ (
        audited-Does _ (run_hook show c e h.freeze_runtime task s) _ _
          (run_hook-Does h.freeze_runtime task s))

  then_preserve-Does :
      (h : Hooks S) (task : String) (r : Stage S)
      → Does (then_preserve show c e h task r).0 (after h.preserve task r.0.world) r.0.broker
  unfolding apply_preserve
  then_preserve-Does h task (s, first) =
      record_failure-Does task "preserve" first (apply_preserve show c e h task s) _ _
        (run_hook-Does h.preserve task s)

  revoke_outside-Does :
      (h : Hooks S) (task : String) (b : Broker) (s : Site S)
      (r : Broker × (ℕ × Result Broker.Error (Unit {0})))
      → Does
          (revoke_outside show c e h task (bulk_revoked show c e s r)).0
          (gated r.1.1 (after h.revoke_identities task s.world) s.world)
          (some r.0)
  revoke_outside-Does h task b s (b', (n, ok _)) =
      audited-Does _ (run_hook show c e h.revoke_identities task (record s { broker = some b' })) _
        _ (run_hook-Does h.revoke_identities task (record s { broker = some b' }))
  revoke_outside-Does h task b s (b', (n, err x)) = (refl, refl)

  apply_revoke-Does :
      (h : Hooks S) (task : String) (s : Site S) (o : Option Broker)
      → s.broker ≡ o
      → Does
          (revoke_outside show c e h task (revoke_tokens show c e task o s)).0
          (revoked_world c e h task o s.world)
          (revoked_broker c e task o)
  unfolding revoke_tokens
  apply_revoke-Does h task s none q =
      let (w, b) = run_hook-Does h.revoke_identities task s in
      audited-Does _ (run_hook show c e h.revoke_identities task s) _ _ (w, b ∙ q)
  apply_revoke-Does h task s (some b) q =
      revoke_outside-Does h task b s (revoke_all_for_task c e b task)

  then_revoke-Does :
      (h : Hooks S) (task : String) (r : Stage S)
      → Does
          (then_revoke show c e h task r).0
          (revoked_world c e h task r.0.broker r.0.world)
          (revoked_broker c e task r.0.broker)
  unfolding apply_revoke
  then_revoke-Does h task (s, first) =
      record_failure-Does task "revoke" first (apply_revoke show c e h task s) _ _
        (apply_revoke-Does h task s s.broker refl)

  contain-Does :
      (h : Hooks S) (task : String) (r : Stage S)
      → Does
          (contain show c e h task r).0
          (contained c e h task r.0.broker r.0.world)
          (revoked_broker c e task r.0.broker)
  contain-Does h task r =
      let r1 = then_revoke show c e h task r in
      let r2 = then_block show c e h task r1 in
      let r3 = then_pause show c e h task r2 in
      let (w1, b1) = then_revoke-Does h task r in
      let (w2, b2) = then_block-Does h task r1 in
      let (w3, b3) = then_pause-Does h task r2 in
      let (w4, b4) = then_preserve-Does h task r3 in
      (
        w4
            ∙ ap (after h.preserve task)
                (w3 ∙ ap (after h.freeze_runtime task) (w2 ∙ ap (after h.block_network task) w1)),
        b4 ∙ (b3 ∙ (b2 ∙ b1)),
      )

  terminated-Does :
      (a : Anomaly) (first : Result Error (Unit {0})) (p : Stage S) (w : S) (b : Option Broker)
      → Does p.0 w b
      → Does (terminated show c e a first p).0 w b
  unfolding audit_raw
  terminated-Does a first (s, ok _) w b h = h
  terminated-Does a first (s, err x) w b h = h

  ended_terminate-Does :
      (h : Hooks S) (a : Anomaly) (r : Stage S)
      → Does
          (end_task show c e h a terminate r).0
          (after h.terminate_task a.task_id r.0.world)
          r.0.broker
  unfolding end_task
  ended_terminate-Does h a (s, first) =
      terminated-Does a first (run_hook show c e h.terminate_task a.task_id s) _ _
        (run_hook-Does h.terminate_task a.task_id s)

  answer-Does :
      (h : Hooks S) (a : Anomaly) (act : Action) (s : Site S)
      → (act ≡ quarantine) ⊎ (act ≡ terminate)
      → Does
          (end_task show c e h a act (respond show c e h a.task_id act s)).0
          (ended h act a.task_id (contained c e h a.task_id s.broker s.world))
          (revoked_broker c e a.task_id s.broker)
  unfolding respond end_task
  answer-Does h a quarantine s p = contain-Does h a.task_id (s, ok tt)
  answer-Does h a terminate s p =
      let r = contain show c e h a.task_id (s, ok tt) in
      let (w, b) = contain-Does h a.task_id (s, ok tt) in
      let (w', b') = ended_terminate-Does h a r in
      (w' ∙ ap (after h.terminate_task a.task_id) w, b' ∙ b)
  answer-Does h a block s p = absurd (ground arith)
  answer-Does h a _ s p = absurd (ground arith)

  chosen_serious :
      (a : Anomaly) (s : Site S)
      → IsSerious a (count_of (get s.handled a.task_id))
      → (chosen show c e a s ≡ quarantine) ⊎ (chosen show c e a s ≡ terminate)
  unfolding chosen classify escalate
  chosen_serious a s p = ground arith

  -- A serious incident, which is one of severity high or critical, or a third or later one of severity
  -- low or medium for its task, is answered by quarantine or termination. Whatever fails on the way,
  -- each hook that is wired for blocking, freezing, preserving and, with termination, terminating runs
  -- once, in this order, after the one for revoking, which is skipped when the broker could not save its
  -- revocation; and afterwards the broker, if there is one, denies every token with the task in it.
  pub handle-contains :
      (h : Hooks S) (a : Anomaly) (s : Site S)
      → IsSerious a (count_of (get s.handled a.task_id))
      → (((handle show c e h a s).1.0 ≡ quarantine) ⊎ ((handle show c e h a s).1.0 ≡ terminate))
        × ((handle show c e h a s).0.world
            ≡ ended h
                (handle show c e h a s).1.0
                a.task_id
                (contained c e h a.task_id s.broker s.world))
        × ((b : Broker) (t : Token)
            → (handle show c e h a s).0.broker ≡ some b
            → t.task ≡ a.task_id
            → (t.task == "") ≡ false
            → denied b t ≡ true)
  unfolding handle audit_raw
  handle-contains h a s p =
      let act = chosen show c e a s in
      let serious = chosen_serious a s p in
      let (w, b) =
        answer-Does h a act
          (audit_raw show c e (incident_row a act "classified") (counted show c e a s)) serious in
      (serious, w, λ b' t q i n. revoked_broker-denied c e a.task_id s.broker b' t (sym b ∙ q) i n)
