-- ===== src/Object/Tests.antt =====
-- include/object: two accounts.
use zatestil.Prelude.{◌≡◌, refl, false}
use zatestil.Serde.{equal, compare_all}
use zatestil.Object.{Account, new, registered, name_eq, account_eq}

abbrev ada : Account
ada = record {
  id = 1;
  status = new;
  name = record { user = "ada"; last = "Lovelace"; first = "Ada" };
}

ada_changed : account_eq ada (record ada { status = registered }) ≡ false
unfolding account_eq name_eq equal compare_all
ada_changed = refl
