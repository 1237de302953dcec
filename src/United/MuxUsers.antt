-- ===== src/United/MuxUsers.antt =====
-- How many sockets of UDT4/src/api.cpp have the number of a multiplexer.
use uvudt.Common.{
  ℕ, ◌+◌, none, some, List, [], ◌∷◌, ◌≡◌, refl, ◌∙◌, arith, if◌then◌else◌, Bool, Option-cases, inl,
  inr, ap,
}
use uvudt.Common.Int.{ℤ, ◌==ℤ◌}
use uvudt.United.Maps.{fetch, assign_key, insert_key, replace, discard}
use uvudt.United.Types.{CudtSocket, United}
use uvudt.United.Entity.{with_socket}

abbrev pub one : Bool → ℕ
one b = if b then 1 else 0

-- How many sockets have the number `k` of a multiplexer.
unfoldable pub users : List (ℤ × CudtSocket) → ℤ → ℕ
users [] k = 0
users ((i, s) ∷ h) k = one (s.mux_id ==ℤ k) + users h k

pub users-insert_key :
    (h : List (ℤ × CudtSocket)) (u k : ℤ) (s : CudtSocket)
    → users (insert_key h u s) k ≡ users h k + one (s.mux_id ==ℤ k)
unfolding users insert_key
users-insert_key [] u k s = ground arith
users-insert_key ((i, t) ∷ h) u k s = ground (arith, users-insert_key h u k s)

pub users-replace :
    (h : List (ℤ × CudtSocket)) (u k : ℤ) (s t : CudtSocket)
    → fetch h u ≡ some t
    → users (replace h u s) k + one (t.mux_id ==ℤ k) ≡ users h k + one (s.mux_id ==ℤ k)
unfolding users replace fetch
users-replace [] u k s t there = ground arith
users-replace ((i, w) ∷ h) u k s t there = ground (arith, users-replace h u k s t)

pub users-discard :
    (h : List (ℤ × CudtSocket)) (u k : ℤ) (t : CudtSocket)
    → fetch h u ≡ some t
    → users (discard h u) k + one (t.mux_id ==ℤ k) ≡ users h k
unfolding users discard fetch
users-discard [] u k t there = ground arith
users-discard ((i, w) ∷ h) u k t there = ground (arith, users-discard h u k t)

pub users-assign_key_new :
    (h : List (ℤ × CudtSocket)) (u k : ℤ) (s : CudtSocket)
    → fetch h u ≡ none
    → users (assign_key h u s) k ≡ users h k + one (s.mux_id ==ℤ k)
unfolding assign_key
users-assign_key_new h u k s gone = rw (gone, assign_key) (users-insert_key h u k s)

pub users-assign_key_old :
    (h : List (ℤ × CudtSocket)) (u k : ℤ) (s t : CudtSocket)
    → fetch h u ≡ some t
    → users (assign_key h u s) k + one (t.mux_id ==ℤ k) ≡ users h k + one (s.mux_id ==ℤ k)
unfolding assign_key
users-assign_key_old h u k s t there = rw (there, assign_key) (users-replace h u k s t there)

-- The socket `u` is changed.
pub users-with_socket :
    (g : United) (u k : ℤ) (f : CudtSocket → CudtSocket) (t : CudtSocket)
    → fetch g.heap u ≡ some t
    → users (with_socket g u f).heap k + one (t.mux_id ==ℤ k)
      ≡ users g.heap k + one ((f t).mux_id ==ℤ k)
unfolding with_socket
users-with_socket g u k f t there =
    rw (there, with_socket) (users-assign_key_old g.heap u k (f t) t there)

pub users-with_socket_same :
    (g : United) (u k : ℤ) (f : CudtSocket → CudtSocket)
    → ((s : CudtSocket) → (f s).mux_id ≡ s.mux_id)
    → users (with_socket g u f).heap k ≡ users g.heap k
unfolding with_socket
users-with_socket_same g u k f same = elim (Option-cases (fetch g.heap u)) [
  | inl gone ↦ rw (gone, with_socket) refl
  | inr (t, there) ↦
      let eq : (f t).mux_id ≡ t.mux_id = same t in
      let moved = users-with_socket g u k f t there in
      let moved' : users (with_socket g u f).heap k + one (t.mux_id ==ℤ k)
          ≡ users g.heap k + one (t.mux_id ==ℤ k) =
        moved ∙ ap (λ i. users g.heap k + one (i ==ℤ k)) eq in
      omega (arith, moved')
]
