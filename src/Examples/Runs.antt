-- ===== src/Examples/Runs.antt =====
-- A Network that is created and then deleted, in two calls of `Reconcile`.
use netbird_operator.Prelude.{◌≡◌, refl, true, List, [], ◌∷◌, bytes}
use netbird_operator.Runtime.{ok}
use netbird_operator.Api.{Network}
use netbird_operator.Server.{Call, Server, World}
use netbird_operator.Mirror.{reconcile}
use netbird_operator.Mirror.Network.{network_mirror}
use netbird_operator.Mirror.Network.Lifecycle.{start, pass, is_safe, Reach-is_safe}
use netbird_operator.Examples.Worlds.{
  quiet, library, library-KeepsFinalizers, meta, object, world, ref,
}

abbrev fresh : Network
fresh = object (record { name = bytes "net"; description = [] }) (record { network_id = [] })

abbrev deleted : Network
deleted = record fresh {
  meta = record meta { deleting = true; finalizers = bytes "finalizers.netbird.io/network" ∷ [] };
  status = record { network_id = bytes "n1" };
}

-- The object is new at the first call, and later it is being deleted.
abbrev read : List (Call Network) → Network
read [] = fresh
read (_ ∷ _) = deleted

abbrev server : Server Network
server = record quiet {
  get = λ h ref. ok (read h);
  networks_create = λ h req. ok (bytes "n1");
  networks_delete = λ h id. ok tt;
}

-- The world behind a call of `Reconcile`.
abbrev after : World Network → World Network
after w = (reconcile server library (network_mirror server library) ref w).1

Reach-is_safe_example : is_safe server library (after (after (world fresh))).history ≡ true
unfolding is_safe
Reach-is_safe_example =
    Reach-is_safe server library library-KeepsFinalizers (world fresh) (after (after (world fresh)))
      refl (pass (pass start ref) ref)
