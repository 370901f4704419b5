-- ===== src/Scenarios/Leaders.antt =====
-- A replica that leads, beside a session credential.
use authn.Prelude.{ℕ, String, ◌≡◌, refl, true, false, some, List, [], ◌∷◌, inl, inr}
use authn.Prelude.Int.{pos}
use authn.Go.Act.{ok}
use authn.Cluster.{Secret}
use authn.Renewal.{Cluster, Thresholds, Renewer}
use authn.Sweep.{sweep}
use authn.Leading.{
  Replica, Leading, waiting, own_identity, sweep_options, Reached, begun, moved, swept,
}
use authn.Leading.Safety.{Kept, Patient, Reached-Kept}
use authn.Scenarios.{formats, os}
use authn.Scenarios.Sweeping.{secrets, secret_named, Logged, remove-Logged}

abbrev thresholds : Thresholds ℕ
thresholds = record {
  at_most_zero = λ t. false;
  at_least_one = λ t. false;
  default_threshold = 1;
  scale = λ t d. d;
}

abbrev renewer : Renewer ℕ
renewer = record {
  namespace = "krateo";
  secret = "authn-clientconfig";
  ca_data = "ca";
  server_url = "https://api";
  username = "authn";
  groups = "dev" ∷ [];
  requested = pos 9000;
  threshold = 1;
}

abbrev cluster : Cluster (List Secret) ℕ
cluster = record {
  formats = formats;
  os = os;
  secrets = secrets;
  thresholds = thresholds;
  now = λ w. pos 1_000_000_000_000_000;
  signup = λ r w. (ok "ada", secret_named "authn-clientconfig" ∷ w);
}

abbrev replica : Replica (List Secret) ℕ
replica = record {
  cluster = cluster;
  identities = record {
    service_account_mapping_exists = λ username w. (ok false, w);
    basic_user_exists = λ username w. (ok true, w);
  };
  renewer = some renewer;
  cert_renewal_on = true;
  storage_namespace = "krateo";
  self_username = "authn";
}

-- The others only add Secrets.
abbrev Others : List Secret → List Secret → Type 0
Others w u = (sec : Secret) × (u ≡ sec ∷ w)

Others-Logged : (w u : List Secret) → Others w u → Logged w → Logged u
Others-Logged w u (sec, added) p = rw added (inr p)

Logged-Kept : (ns : String) → Kept replica Others ns Logged
Logged-Kept ns = record {
  renewal_kept = λ r h. record {
    get_kept = record { keep = λ w p. p };
    signup_kept = record { keep = λ w p. inr p };
    update_kept = λ sec w u h p. p;
  };
  backfill_kept = record {
    list_kept = λ n. record { keep = λ w p. p };
    mapping_kept = λ username. record { keep = λ w p. p };
    user_kept = λ username. record { keep = λ w p. p };
    update_kept = λ n sec sec' l s. record { keep = λ w p. p };
  };
  sweep_kept = record {
    list_kept = λ n w p. p;
    delete_kept = λ n sec w l e p. remove-Logged sec.name w e.step_up p;
  };
  others_kept = Others-Logged;
}

abbrev led : List Secret
led = secret_named "ada-clientconfig" ∷ secret_named "ada-clientconfig-stepup" ∷ []

-- The replica has begun to lead and has swept.
abbrev after : Leading (List Secret) ℕ
after = record {
  main = (own_identity replica led).1.main;
  sweeper = waiting;
  world =
      (sweep (sweep_options replica (own_identity replica led).0)
        (own_identity replica led).1.world).1;
}

reached : Reached replica Others led after
unfolding own_identity
reached = moved begun swept

Reached-Kept_example : Logged after.world × Patient replica Others after.main
Reached-Kept_example =
    Reached-Kept replica Others led Logged after (Logged-Kept _) (inl refl) reached
