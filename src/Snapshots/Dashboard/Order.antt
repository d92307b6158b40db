-- ===== src/Snapshots/Dashboard/Order.antt =====
-- The order of the keys by which duplicate cards are compared.
use kid_pc_monitor.Base.{◌≡◌, true, false, arith}
use kid_pc_monitor.Base.Text.{text_lt_irreflexive, text_lt_transitive, text_lt_connected}
use kid_pc_monitor.Snapshots.Dashboard.{Key, key_lt}

pub key_lt_irreflexive : (a : Key) → key_lt a a ≡ false
unfolding key_lt
key_lt_irreflexive (t, r, ip) = ground (arith, text_lt_irreflexive ip)

pub key_lt_transitive : (a b c : Key) → key_lt a b ≡ true → key_lt b c ≡ true → key_lt a c ≡ true
unfolding key_lt
key_lt_transitive (t, r, ip) (t', r', ip') (t″, r″, ip″) h k =
    ground (arith, h, k, text_lt_transitive ip ip' ip″)

pub key_lt_connected : (a b : Key) → key_lt a b ≡ false → key_lt b a ≡ false → a.2 ≡ b.2
unfolding key_lt
key_lt_connected (t, r, ip) (t', r', ip') h k = ground (arith, h, k, text_lt_connected ip ip')
