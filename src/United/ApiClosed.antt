-- ===== src/United/ApiClosed.antt =====
-- What a program sees of a socket that it has closed, through the functions of UDT4/src/api.cpp.
use uvudt.Common.{some_injective, ℕ, some, List, ◌≡◌, refl, ◌∙◌, ap, false}
use uvudt.Common.Int.{ℤ, pos, minus_one}
use uvudt.United.Types.{CudtSocket, Udt, United, Reply, returns, throws, waits, listening, closed}
use uvudt.United.EntityClose.{Moment}
use uvudt.United.Lookup.{is, locate, lookup, get_status}
use uvudt.United.Closing.{close}
use uvudt.United.Closed.{close-Gone}
use uvudt.United.Api.{Api, caught, on_entity, cudt_close, cudt_send, getsockstate}

-- A call that returns 0 has not thrown.
caught_zero :
    (t : Api) (r : Reply ℤ × United)
    → (caught t minus_one r).0 ≡ some (pos 0)
    → (r.0 ≡ returns (pos 0)) × ((caught t minus_one r).1.table ≡ r.1)
unfolding caught
caught_zero t (returns v, g) path =
    (ap (λ (x : ℤ). returns x) (some_injective v (pos 0) path), refl)
caught_zero t (throws major minor, g) path = let impossible : ⊥ = cc path in elim impossible [ ]
caught_zero t (waits, g) path = let impossible : ⊥ = cc path in elim impossible [ ]

-- After a close that returns 0, on a socket that does not listen, the state of the socket is CLOSED,
-- and a call of `send` on it returns ERROR with the error 5, 4 and changes nothing else.
pub send-after_close :
    (t : Api) (u : ℤ) (s : CudtSocket) (entertime : ℕ) (moments : List Moment) (now : ℕ)
    (act : Udt → Reply ℤ × Udt)
    → locate t.table u ≡ some s
    → is s.status listening ≡ false
    → (cudt_close t u entertime moments now).0 ≡ some (pos 0)
    → (getsockstate (cudt_close t u entertime moments now).1 u ≡ closed)
      × (cudt_send (cudt_close t u entertime moments now).1 u act ≡ (
        some minus_one,
        record (cudt_close t u entertime moments now).1 { last_error = (5, 4) },
      ))
unfolding cudt_close cudt_send getsockstate on_entity caught
send-after_close t u s entertime moments now act there other path =
    let r = close t.table u entertime moments now in
    let (zero, table_is) = caught_zero t r path in
    let (nowhere, state) = close-Gone t.table u s entertime moments now there other zero in
    let t' = (caught t minus_one r).1 in
    let nowhere_now : lookup t'.table u ≡ throws 5 4 =
      ap (λ (g : United). lookup g u) table_is ∙ nowhere in
    let state_now : get_status t'.table u ≡ closed =
      ap (λ (g : United). get_status g u) table_is ∙ state in
    (state_now, rw (nowhere_now, on_entity) refl)
