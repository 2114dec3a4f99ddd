-- ===== src/World/Touches.antt =====
-- Methods that change nothing but one socket and the log.
use mathlib.Core.Path.{fun_ext}
use nest_quickfix.Prelude.{ℕ, ◌≡◌, sym, ap, ◌∙◌, arith, List}
use nest_quickfix.World.{World, Socket, Event}
use nest_quickfix.World.Store.{update, update-same}

-- A world in which only socket `k` and the log have changed.
abbrev pub Touches : ℕ → World → World → Type 0
Touches k w u = u ≡ record w { sockets = update w.sockets k (u.sockets k); log = u.log }

update-update : (f : ℕ → Socket) (q : ℕ) (a b : Socket) → update (update f q a) q b ≡ update f q b
update-update f q a b = fun_ext λ r. ground arith

update_self : (f : ℕ → Socket) (q : ℕ) → f ≡ update f q (f q)
update_self f q = fun_ext λ r. ground arith

pub Touches-refl : (k : ℕ) (w : World) → Touches k w w
Touches-refl k w = ap (λ s. record w { sockets = s }) (update_self w.sockets k)

pub Touches-trans : (k : ℕ) (w v u : World) → Touches k w v → Touches k v u → Touches k w u
Touches-trans k w v u p q =
    q
    ∙ ap (λ (x : World). record x { sockets = update x.sockets k (u.sockets k); log = u.log }) p
    ∙ ap (λ s. record w { sockets = s; log = u.log })
        (update-update w.sockets k (v.sockets k) (u.sockets k))

pub Touches-put :
    (k : ℕ) (s : Socket) (l : List Event) (w : World)
    → Touches k w (record w { sockets = update w.sockets k s; log = l })
Touches-put k s l w =
    ap (λ x. record w { sockets = update w.sockets k x; log = l }) (sym (update-same w.sockets k s))

pub Touches-log : (k : ℕ) (l : List Event) (w : World) → Touches k w (record w { log = l })
Touches-log k l w = ap (λ s. record w { sockets = s; log = l }) (update_self w.sockets k)
