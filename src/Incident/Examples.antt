-- ===== src/Incident/Examples.antt =====
-- An incident with a hook that fails, and one use of the theorem about it.
use pvm.Prelude.{
  String, ◌≡◌, ◌⊎◌, refl, inl, true, false, none, some, List, [], ◌∷◌, ◌++◌, ok, err, ◌==◌,
  text_comparable,
}
use pvm.Identity.Broker.{Token, Broker, Codec, Env, absent, new_broker}
use pvm.Identity.Denied.{denied}
use pvm.Incident.Controller.{high, Anomaly, quarantine, terminate, Error, Hook, Hooks, Site, handle}
use pvm.Incident.Sides.{contained}
use pvm.Incident.Containment.{handle-contains, ended}

-- The hooks write their names down; freezing reports an error.
abbrev noted : String → Hook (List String)
noted name = some (λ task w. (w ++ name ∷ [], ok tt))

abbrev frozen : Hook (List String)
frozen = some (λ task w. (w ++ "freeze" ∷ [], err "no cgroup"))

abbrev hooks : Hooks (List String)
hooks = record {
  block_network = noted "block";
  revoke_identities = noted "revoke";
  freeze_runtime = frozen;
  terminate_task = none;
  preserve = noted "preserve";
}

abbrev show : Error → String
show x = "error"

abbrev toy : Codec
toy = record {
  sign = λ p. "sig";
  encode = λ p. p;
  decode = λ s. some s;
  marshal = λ t. none;
  unmarshal = λ p. none;
  ttl_text = λ n. "15m";
  count_text = λ n. "0";
}

abbrev env : Env
env = record {
  now = 7;
  append = true;
  disk = record {
    create = true;
    encode = true;
    sync = true;
    close = true;
    rename = true;
    open_dir = true;
    sync_dir = true;
    close_dir = true;
  };
}

abbrev site : Site (List String)
site = record {
  handled = [];
  ledger = some [];
  broker = some (new_broker none 0 absent);
  world = [];
}

abbrev anomaly : Anomaly
anomaly = record { task_id = "task1"; severity = high; signal = "egress"; detail = "" }

handle-contains_example :
    (((handle show toy env hooks anomaly site).1.0 ≡ quarantine)
      ⊎ ((handle show toy env hooks anomaly site).1.0 ≡ terminate))
    × ((handle show toy env hooks anomaly site).0.world
        ≡ ended hooks
            (handle show toy env hooks anomaly site).1.0
            "task1"
            (contained toy env hooks "task1" (some (new_broker none 0 absent)) []))
    × ((b : Broker) (t : Token)
        → (handle show toy env hooks anomaly site).0.broker ≡ some b
        → t.task ≡ "task1"
        → (t.task == "") ≡ false
        → denied b t ≡ true)
handle-contains_example = handle-contains show toy env hooks anomaly site (inl refl)
