-- ===== src/Object/History.antt =====
-- What the two functions that record an access do to the history of an object.
use red_opt.Base.{ℕ, zero, suc, ◌+◌, ◌%◌, ◌^◌, ◌≤◌, ◌<◌, List, [], ◌∷◌, ◌++◌, ◌≡◌, refl, sym, arith}
use mathlib.Core.List.{append-nil, append_assoc}
use red_opt.Base.{length, length-take, lt→ltb, get_or, take, drop, ltb, if◌then◌else◌}
use red_opt.Server.{Server}
use red_opt.Clock.{lru_clock}
use red_opt.Object.{Robj, update_lru_histogram, init_or_update_objectt}

-- The accesses that an object remembers, oldest first.
abbrev pub history : Robj → List ℕ
history o = take o.num_accesses o.access_times

-- What a history of at most four accesses should become.
pub remember : List ℕ → ℕ → List ℕ
remember h now = if ltb (length h) 4 then h ++ (now ∷ []) else drop 1 h ++ (now ∷ [])

remember_short : (h : List ℕ) (now : ℕ) → length h < 4 → remember h now ≡ h ++ (now ∷ [])
unfolding remember
remember_short h now k = ground (arith, lt→ltb (length h) 4)

-- The layout of an object: four cells, a count of at most four, its slack.
pub record IsRobj (o : Robj) : Type 0 where
  pub cells : length o.access_times ≡ 4
  pub counted : o.num_accesses ≤ 4
  pub room : 2 ≤ length o.slack

-- An object with its cells written out.
abbrev laid_out : Robj → ℕ → ℕ → ℕ → ℕ → ℕ → ℕ → ℕ → List ℕ → Robj
laid_out o n a b c d p q r = record o {
  access_times = a ∷ b ∷ c ∷ d ∷ [];
  num_accesses = n;
  slack = p ∷ q ∷ r;
}

-- To prove something of an object, it is enough to prove it with the cells written out.
module _ (P : Robj → Type 0) (o : Robj)
    (f : (n a b c d p q : ℕ) (r : List ℕ) → n ≤ 4 → P (laid_out o n a b c d p q r)) where
  from_parts :
      (ws sl : List ℕ)
      → length ws ≡ 4
      → 2 ≤ length sl
      → o.num_accesses ≤ 4
      → P (record o { access_times = ws; slack = sl })
  from_parts (a ∷ b ∷ c ∷ d ∷ []) (p ∷ q ∷ r) e k h = f o.num_accesses a b c d p q r h
  from_parts (a ∷ b ∷ c ∷ d ∷ (x ∷ xs)) sl e k h = absurd (omega arith)
  from_parts [] sl e k h = absurd (omega arith)
  from_parts (a ∷ []) sl e k h = absurd (omega arith)
  from_parts (a ∷ b ∷ []) sl e k h = absurd (omega arith)
  from_parts (a ∷ b ∷ c ∷ []) sl e k h = absurd (omega arith)
  from_parts (a ∷ b ∷ c ∷ d ∷ []) [] e k h = absurd (omega arith)
  from_parts (a ∷ b ∷ c ∷ d ∷ []) (p ∷ []) e k h = absurd (omega arith)

  from_layout : IsRobj o → P o
  from_layout v = from_parts o.access_times o.slack v.cells v.room v.counted

-- What is left when an access has been recorded in an object: while there is room the access is
-- remembered, and the object keeps its layout.
abbrev pub Recorded : ℕ → Robj → Robj → Type 0
Recorded now o o' =
    (history o' ≡ remember (history o) (now % 2 ^ 24))
    × (o'.num_accesses ≡ o.num_accesses + 1)
    × IsRobj o'

-- On a full history `update_lru_histogram` slides the window, and the count that it leaves is the
-- word behind the count.
abbrev Updated : Server → Robj → Type 0
Updated s o =
    (o.num_accesses < 4 → Recorded (lru_clock s) o (update_lru_histogram s o))
    × (o.num_accesses ≡ 4
        → ((update_lru_histogram s o).access_times ≡ remember (history o) (lru_clock s % 2 ^ 24))
          × ((update_lru_histogram s o).num_accesses ≡ get_or o.slack 0 0 % 2 ^ 8))

laid_out-Updated :
    (s : Server) (o : Robj) (n a b c d p q : ℕ) (r : List ℕ)
    → n ≤ 4
    → Updated s (laid_out o n a b c d p q r)
unfolding update_lru_histogram remember
laid_out-Updated s o zero a b c d p q r h =
    (λ k. (refl, refl, omega arith), λ k. absurd (omega arith))
laid_out-Updated s o (suc zero) a b c d p q r h =
    (λ k. (refl, refl, omega arith), λ k. absurd (omega arith))
laid_out-Updated s o (suc (suc zero)) a b c d p q r h =
    (λ k. (refl, refl, omega arith), λ k. absurd (omega arith))
laid_out-Updated s o (suc (suc (suc zero))) a b c d p q r h =
    (λ k. (refl, refl, omega arith), λ k. absurd (omega arith))
laid_out-Updated s o (suc (suc (suc (suc zero)))) a b c d p q r h =
    (λ k. absurd (omega arith), λ k. (refl, omega arith))
laid_out-Updated s o (suc (suc (suc (suc (suc n))))) a b c d p q r h = absurd (omega arith)

update_lru_histogram-Updated : (s : Server) (o : Robj) → IsRobj o → Updated s o
update_lru_histogram-Updated s o = from_layout (Updated s) o (laid_out-Updated s o)

-- `updateLRUHistogram` on an object with fewer than four accesses appends the clock to the
-- history, counts it and keeps the object's layout.
pub update_lru_histogram_room :
    (s : Server) (o : Robj)
    → IsRobj o
    → o.num_accesses < 4
    → Recorded (lru_clock s) o (update_lru_histogram s o)
update_lru_histogram_room s o v = (update_lru_histogram-Updated s o v).0

-- `updateLRUHistogram` on an object with four accesses makes the array the window of the last
-- four, but the 24 bytes that are moved take the count along: what is left in `num_accesses` is
-- the low byte of the word behind it.
pub update_lru_histogram_full :
    (s : Server) (o : Robj)
    → IsRobj o
    → o.num_accesses ≡ 4
    → ((update_lru_histogram s o).access_times ≡ remember (history o) (lru_clock s % 2 ^ 24))
      × ((update_lru_histogram s o).num_accesses ≡ get_or o.slack 0 0 % 2 ^ 8)
update_lru_histogram_full s o v = (update_lru_histogram-Updated s o v).1

-- The same for `init_or_update_objectt`, which writes past the array when it is full.
abbrev Initialised : ℕ → Robj → Type 0
Initialised now o =
    (o.num_accesses < 4 → Recorded now o (init_or_update_objectt o now))
    × (o.num_accesses ≡ 4
        → ((init_or_update_objectt o now).access_times ≡ o.access_times)
          × ((init_or_update_objectt o now).num_accesses ≡ (now + 1) % 2 ^ 8))

laid_out-Initialised :
    (now : ℕ) (o : Robj) (n a b c d p q : ℕ) (r : List ℕ)
    → n ≤ 4
    → Initialised now (laid_out o n a b c d p q r)
unfolding init_or_update_objectt remember
laid_out-Initialised now o zero a b c d p q r h =
    (λ k. (refl, refl, omega arith), λ k. absurd (omega arith))
laid_out-Initialised now o (suc zero) a b c d p q r h =
    (λ k. (refl, refl, omega arith), λ k. absurd (omega arith))
laid_out-Initialised now o (suc (suc zero)) a b c d p q r h =
    (λ k. (refl, refl, omega arith), λ k. absurd (omega arith))
laid_out-Initialised now o (suc (suc (suc zero))) a b c d p q r h =
    (λ k. (refl, refl, omega arith), λ k. absurd (omega arith))
laid_out-Initialised now o (suc (suc (suc (suc zero)))) a b c d p q r h =
    (λ k. absurd (omega arith), λ k. (refl, omega arith))
laid_out-Initialised now o (suc (suc (suc (suc (suc n))))) a b c d p q r h = absurd (omega arith)

init_or_update_objectt-Initialised : (o : Robj) (now : ℕ) → IsRobj o → Initialised now o
init_or_update_objectt-Initialised o now =
    from_layout (Initialised now) o (laid_out-Initialised now o)

-- `initOrUpdateObjectt` on an object with fewer than four accesses appends the time to the
-- history, counts it and keeps the object's layout.
pub init_or_update_objectt_room :
    (o : Robj) (now : ℕ)
    → IsRobj o
    → o.num_accesses < 4
    → Recorded now o (init_or_update_objectt o now)
init_or_update_objectt_room o now v = (init_or_update_objectt-Initialised o now v).0

-- `initOrUpdateObjectt` on an object with four accesses leaves the array as it was: the time is
-- written over `num_accesses`, whose low byte is then counted up.
pub init_or_update_objectt_full :
    (o : Robj) (now : ℕ)
    → IsRobj o
    → o.num_accesses ≡ 4
    → ((init_or_update_objectt o now).access_times ≡ o.access_times)
      × ((init_or_update_objectt o now).num_accesses ≡ (now + 1) % 2 ^ 8)
init_or_update_objectt_full o now v = (init_or_update_objectt-Initialised o now v).1

-- The accesses to one object at the clocks of a list of server states.
pub touch_all : List Server → Robj → Robj
touch_all [] o = o
touch_all (s ∷ ss) o = touch_all ss (update_lru_histogram s o)

pub clocks : List Server → List ℕ
clocks [] = []
clocks (s ∷ ss) = lru_clock s % 2 ^ 24 ∷ clocks ss

length-history : (o : Robj) → IsRobj o → length (history o) ≡ o.num_accesses
length-history o v = omega (arith, length-take o.num_accesses o.access_times)

-- Up to four accesses in all are remembered, each of them and in their order.
pub touch_all-history :
    (ss : List Server) (o : Robj)
    → IsRobj o
    → o.num_accesses + length ss ≤ 4
    → (history (touch_all ss o) ≡ history o ++ clocks ss)
      × ((touch_all ss o).num_accesses ≡ o.num_accesses + length ss)
unfolding touch_all clocks
touch_all-history [] o v h = (sym (append-nil (history o)), omega arith)
touch_all-history (s ∷ ss) o v h =
    let (e, n, v') = update_lru_histogram_room s o v (omega arith) in
    let (e', n') = touch_all-history ss (update_lru_histogram s o) v' (omega arith) in
    (
      rw (e', e, remember_short (history o) _ (omega (arith, length-history o v)))
          (append_assoc (history o) (lru_clock s % 2 ^ 24 ∷ []) (clocks ss)),
      omega arith,
    )
