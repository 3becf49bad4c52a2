-- ===== src/Alerts/Database.antt =====
-- Alerts of controller/src/lib/alerts.ts leave the database alone.
use docker_mass_deployment.Base.{String, ◌≡◌, Option, arith}
use docker_mass_deployment.Alerts.{get, alert_with, alert_admins}
use docker_mass_deployment.Store.World.{Db, World, KeyState}
use docker_mass_deployment.Store.Keeps.{Keeps}

alert_with-db :
    {Q : Type 0} (st : Option KeyState) (key subject body : String) (w : World Q)
    → (alert_with st key subject body w).db ≡ w.db
unfolding alert_with
alert_with-db st key subject body w = ground arith

pub alert_admins-db :
    {Q : Type 0} (key subject body : String) (w : World Q)
    → (alert_admins key subject body w).1.db ≡ w.db
unfolding alert_admins
alert_admins-db key subject body w =
    ground (arith, alert_with-db (get key w.alert_state) key subject body w)

pub alert_admins-Keeps :
    {Q : Type 0} {P : Db → Type 0} (key subject body : String)
    → Keeps {Q = Q} P (alert_admins key subject body)
alert_admins-Keeps key subject body = record {
  at = λ w h. rw (alert_admins-db key subject body w) h;
}
