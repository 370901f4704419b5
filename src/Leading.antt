-- ===== src/Leading.antt =====
-- The work of the replica that leads: ownIdentity of go/authn/main.go, with the loops Run of
-- go/authn/internal/certrenewal and go/authn/internal/stepupsweep. The sweeps run in a goroutine of
-- their own, so the work is a step relation: a check of the certificate and a pass of the sweep are
-- single steps, between which the other writers of the cluster make theirs.
pub mod Safety
use authn.Prelude.{String, ◌≡◌, Bool, Option, none, some, List, [], ◌∷◌, if◌then◌else◌}
use authn.Prelude.Int.{pos}
use authn.Go.Error.{Error}
use authn.Go.Time.{Duration}
use authn.Go.Act.{Result, ok, err}
use authn.Cluster.{get_operator_namespace}
use authn.Backfill.Strategy.{Lookup}
use authn.Backfill
use authn.Sweep
use authn.Renewal.{Cluster, Renewer, ensure}

-- What main hands to ownIdentity; there is no renewer where New failed.
pub record Replica (W F : Type 0) : Type 0 where
  pub cluster : Cluster W F
  pub identities : Lookup W
  pub renewer : Option (Renewer F)
  pub cert_renewal_on : Bool
  pub storage_namespace : String
  pub self_username : String

-- Where ownIdentity is: in the loop of a renewer, waiting; at <-lctx.Done(); or it has returned.
pub data Main (F : Type 0) : Type 0 where
  renewing : Renewer F → Duration → Main F
  standing_by : Main F
  returned : Main F

-- Where the goroutine of the sweep is: about to sweep, at its select, or it has returned.
pub data Sweeper : Type 0 where
  sweeping waiting ended : Sweeper

pub record Leading (W F : Type 0) : Type 0 where
  pub main : Main F
  pub sweeper : Sweeper
  pub world : W

module _ {W F : Type 0} (replica : Replica W F) where
  open replica use {cluster, identities, renewer, cert_renewal_on, storage_namespace, self_username}

  abbrev pub namespaces_with : String → List String
  namespaces_with operator_namespace = operator_namespace ∷ storage_namespace ∷ []

  -- GetOperatorNamespace returns "" with an error, which is only logged here.
  abbrev pub namespace_or_empty : Result String → String
  namespace_or_empty (ok ns) = ns
  namespace_or_empty (err e) = ""

  abbrev pub backfill_options : String → Backfill.Options W
  backfill_options ns = record {
    secrets = cluster.secrets;
    formats = cluster.formats;
    namespaces = namespaces_with ns;
    self_username = self_username;
    identities = identities;
  }

  abbrev pub sweep_options : String → Sweep.Options W
  sweep_options ns = record {
    secrets = cluster.secrets;
    codec = cluster.formats.codec;
    namespaces = namespaces_with ns;
    grace = pos 0;
    now = cluster.now;
  }

  -- The first Ensure, whose error is only logged; without a renewer the wait is 0.
  abbrev pub first_check : Option (Renewer F) → W → Duration × W
  first_check none w = (pos 0, w)
  first_check (some r) w = ((ensure cluster r w).0.0, (ensure cluster r w).1)

  -- The switch that ends ownIdentity.
  abbrev pub settled : Option (Renewer F) → Duration → Main F
  settled none wait = standing_by
  settled (some r) wait = if cert_renewal_on then renewing r wait else standing_by

  -- ownIdentity up to its switch, and the operator namespace that it found.
  unfoldable pub own_identity : W → String × Leading W F
  own_identity w =
      let (wait, checked) = first_check renewer w in
      let (found, located) = get_operator_namespace cluster.os checked in
      let ns = namespace_or_empty found in
      (
        ns,
        record {
          main = settled renewer wait;
          sweeper = sweeping;
          world = (Backfill.run (backfill_options ns) located).1;
        },
      )

  -- What can happen next, where the other writers change the cluster as `Others` says.
  pub data Step (ns : String) (Others : W → W → Type 0) : Leading W F → Leading W F → Type 0 where
    -- the timer of the renewer fires
    due :
        {r : Renewer F} {wait : Duration} {s : Sweeper} {w : W}
        → Step ns Others
            (record { main = renewing r wait; sweeper = s; world = w })
            (record {
              main = renewing r (ensure cluster r w).0.0;
              sweeper = s;
              world = (ensure cluster r w).1;
            })
    -- the context is done
    cancelled :
        {m : Main F} {s : Sweeper} {w : W}
        → Step ns Others
            (record { main = m; sweeper = s; world = w })
            (record { main = returned; sweeper = s; world = w })
    -- a pass of the sweep, whose error is only logged
    swept :
        {m : Main F} {w : W}
        → Step ns Others
            (record { main = m; sweeper = sweeping; world = w })
            (record { main = m; sweeper = waiting; world = (Sweep.sweep (sweep_options ns) w).1 })
    -- the ticker of the sweep
    tick :
        {m : Main F} {w : W}
        → Step ns Others
            (record { main = m; sweeper = waiting; world = w })
            (record { main = m; sweeper = sweeping; world = w })
    -- the context is done, at the select of the sweep
    dismissed :
        {m : Main F} {w : W}
        → Step ns Others
            (record { main = m; sweeper = waiting; world = w })
            (record { main = m; sweeper = ended; world = w })
    -- logins on this replica and on others, and everyone else who writes to the cluster
    others :
        {m : Main F} {s : Sweeper} {w u : W}
        → Others w u
        → Step ns Others
            (record { main = m; sweeper = s; world = w })
            (record { main = m; sweeper = s; world = u })

  -- The states that the work reaches from the world in which the replica starts to lead.
  pub data Reached (Others : W → W → Type 0) (w : W) : Leading W F → Type 0 where
    begun : Reached Others w (own_identity w).1
    moved :
        {s t : Leading W F}
        → Reached Others w s
        → Step (own_identity w).0 Others s t
        → Reached Others w t
