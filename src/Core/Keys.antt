-- ===== src/Core/Keys.antt =====
-- The Redis keys of the core modules, and that they do not collide.
use hydra_engine.Base.{◌≡◌, refl, false, ◌++◌}
use hydra_engine.Text.{Str, codes, str_eq}
use hydra_engine.Core.Types.{Market, Side, market_name, side_name}

unfoldable pub kill_blocked_key : Str
kill_blocked_key = codes "hydra:kill_switch_active"

unfoldable pub daily_pnl_key : Str
daily_pnl_key = codes "hydra:daily_pnl"

unfoldable pub last_snapshot_key : Str
last_snapshot_key = codes "hydra:last_snapshot"

unfoldable pub idem_key : Str → Str
idem_key k = codes "idem:" ++ k

unfoldable pub lock_key : Market → Str → Side → Str
lock_key m symbol side =
    codes "order_lock:"
    ++ (market_name m ++ (codes ":" ++ (symbol ++ (codes ":" ++ side_name side))))

unfoldable pub position_key : Str → Str → Str
position_key market symbol = codes "hydra:positions:" ++ (market ++ (codes ":" ++ symbol))

pub idem_key-ne-lock_key :
    (k : Str) (m : Market) (s : Str) (d : Side) → str_eq (idem_key k) (lock_key m s d) ≡ false
unfolding idem_key lock_key str_eq
idem_key-ne-lock_key k m s d = refl

pub lock_key-ne-idem_key :
    (k : Str) (m : Market) (s : Str) (d : Side) → str_eq (lock_key m s d) (idem_key k) ≡ false
unfolding idem_key lock_key str_eq
lock_key-ne-idem_key k m s d = refl

pub kill_blocked_key-ne-lock_key :
    (m : Market) (s : Str) (d : Side) → str_eq (lock_key m s d) kill_blocked_key ≡ false
unfolding kill_blocked_key lock_key str_eq
kill_blocked_key-ne-lock_key m s d = refl

pub kill_blocked_key-ne-idem_key : (k : Str) → str_eq kill_blocked_key (idem_key k) ≡ false
unfolding kill_blocked_key idem_key str_eq
kill_blocked_key-ne-idem_key k = refl

pub idem_key-ne-last_snapshot_key : (k : Str) → str_eq last_snapshot_key (idem_key k) ≡ false
unfolding last_snapshot_key idem_key str_eq
idem_key-ne-last_snapshot_key k = refl
