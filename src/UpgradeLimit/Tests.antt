-- ===== src/UpgradeLimit/Tests.antt =====
-- Failed upgrades from one client.
use printer_repo.Prelude.{◌≡◌, refl, ℕ, List, [], ◌∷◌}
use printer_repo.Prelude.Text.{text, text_eq}
use printer_repo.AuthLimit.{allowed, read_bucket}
use printer_repo.UpgradeLimit.{
  LocalLocks, upgrade_key, get_lock, is_ws_upgrade_locally_locked, inspect_ws_upgrade_rate_limit,
}

abbrev locks : LocalLocks
locks = (text "10.0.0.1", 500) ∷ []

-- A local lock that is over is forgotten, and the row decides.
forgotten : inspect_ws_upgrade_rate_limit (text "10.0.0.1") 600 locks [] ≡ ([], allowed)
unfolding inspect_ws_upgrade_rate_limit is_ws_upgrade_locally_locked get_lock upgrade_key
    read_bucket text text_eq
forgotten = refl

abbrev times : List ℕ
times = 10 ∷ 20 ∷ 600 ∷ 700 ∷ 70_000 ∷ []
