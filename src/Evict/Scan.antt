-- ===== src/Evict/Scan.antt =====
-- The scan of the pool in `performEvictions` (evict.c), over its entries.
use red_opt.Base.{ℕ, zero, suc, ◌-◌, ◌≤◌, ◌≡◌, refl, sym, ap, ◌∙◌, List, [], ◌∷◌, ◌++◌, map}
use red_opt.Base.{
  Bool, true, false, Option, none, some, All, length, get_elem?-append, get_elem?-append_right,
}
use red_opt.Base.{
  modify, modify-append, last_split, All-append, All-left, All-right, >>=-some, Bool-cases, inl,
  inr, arith,
}
use mathlib.Core.List.{append_assoc, map-append}
use mathlib.Core.Path.{subst, ap₂}
use native.Mathlib.Decide.{dec_le}
use red_opt.Pool.{Sds, Entry, name}
use red_opt.Pool.Shape.{Live, Free}
use red_opt.Evict.{clear, Target, target_at, scan}

module _ {F : Type 0} (zero_score : F) (bufs : ℕ → Sds) (exists : ℕ → Sds → Bool) where
  abbrev pub target : Entry F → Target
  target e = (e.dbid, name bufs e.key)

  -- The key of the entry is no longer in its database.
  abbrev pub Ghost : Entry F → Type 0
  Ghost e = exists e.dbid (name bufs e.key) ≡ false

  -- What a scan of occupied entries does.
  pub data Scanned (live free : List (Entry F)) : Option Target × List (Entry F) → Type 0 where
    nothing : All Ghost live → Scanned live free (none, map (clear zero_score) live ++ free)
    picked :
        (below : List (Entry F)) (e : Entry F) (above : List (Entry F))
        → live ≡ below ++ (e ∷ above)
        → exists e.dbid (name bufs e.key) ≡ true
        → All Ghost above
        → Scanned live free (some (target e), below ++ (map (clear zero_score) (e ∷ above) ++ free))

  target_at-Live :
      (pre : List (Entry F)) (e : Entry F) (post : List (Entry F))
      → Live e
      → target_at zero_score bufs exists (pre ++ (e ∷ post)) (length pre) ≡ some (target e)
  target_at-Live pre e post h = >>=-some _ (get_elem?-append pre e post) (rw h)

  target_at-Free :
      (pre free : List (Entry F)) (k : ℕ)
      → length pre ≤ k
      → All Free free
      → target_at zero_score bufs exists (pre ++ free) k ≡ none
  target_at-Free pre free k h f =
      rw (get_elem?-append_right pre free k h) (free_at free (k - length pre) f)
    where
      free_at :
          (fs : List (Entry F)) (i : ℕ) → All Free fs → target_at zero_score bufs exists fs i ≡ none
      free_at [] i f = refl
      free_at (x ∷ fs) zero f = rw f.0
      free_at (x ∷ fs) (suc i) f = free_at fs i f.1

  module _ (k : ℕ) (es : List (Entry F)) where
    scan_skip :
        target_at zero_score bufs exists es k ≡ none
        → scan zero_score bufs exists (suc k) es ≡ scan zero_score bufs exists k es
    unfolding scan
    scan_skip e = rw (e, scan)

    scan_hit :
        {t : Target}
        → target_at zero_score bufs exists es k ≡ some t
        → exists t.0 t.1 ≡ true
        → scan zero_score bufs exists (suc k) es ≡ (some t, modify k (clear zero_score) es)
    unfolding scan
    scan_hit e h = rw (e, scan, h)

    scan_ghost :
        {t : Target}
        → target_at zero_score bufs exists es k ≡ some t
        → exists t.0 t.1 ≡ false
        → scan zero_score bufs exists (suc k) es
          ≡ scan zero_score bufs exists k (modify k (clear zero_score) es)
    unfolding scan
    scan_ghost e h = rw (e, scan, h)

  -- One more ghost on top changes nothing but that it is cleared too.
  extend :
      (ys : List (Entry F)) (e : Entry F) (free : List (Entry F))
      {out : Option Target × List (Entry F)}
      → Ghost e
      → Scanned ys (clear zero_score e ∷ free) out
      → Scanned (ys ++ (e ∷ [])) free out
  extend ys e free g (nothing all) =
      subst (λ l. Scanned (ys ++ (e ∷ [])) free (none, l))
        (ap (λ l. l ++ free) (map-append (clear zero_score) ys (e ∷ []))
          ∙ append_assoc (map (clear zero_score) ys) (clear zero_score e ∷ []) free)
        (nothing (All-append Ghost ys (e ∷ []) all (g, tt)))
  extend ys e free g (picked below x above split there all) =
      subst (λ l. Scanned (ys ++ (e ∷ [])) free (some (target x), below ++ l))
        (ap (λ l. clear zero_score x ∷ (l ++ free)) (map-append (clear zero_score) above (e ∷ []))
          ∙ ap (λ l. clear zero_score x ∷ l)
              (append_assoc (map (clear zero_score) above) (clear zero_score e ∷ []) free))
        (picked below x (above ++ (e ∷ []))
          (ap (λ l. l ++ (e ∷ [])) split ∙ append_assoc below (x ∷ above) (e ∷ [])) there
          (All-append Ghost above (e ∷ []) all (g, tt)))

  -- The scan from `k` down, where only free entries are at `k` and above.
  pub scan-Scanned :
      (k : ℕ) (live free : List (Entry F))
      → length live ≤ k
      → All Live live
      → All Free free
      → Scanned live free (scan zero_score bufs exists k (live ++ free))
  unfolding scan
  scan-Scanned zero [] free h l f = nothing tt
  scan-Scanned zero (x ∷ live) free h l f = absurd (omega arith)
  scan-Scanned (suc k) live free h l f = elim (dec_le (length live) k) [
    | yes low ↦
        subst (Scanned live free)
          (sym (scan_skip k (live ++ free) (target_at-Free live free k low f)))
          (scan-Scanned k live free low l f)
    | no high ↦
        let (ys, e, split, count) = last_split live k (omega arith) in
        let l' = subst (All Live) split l in
        let live_e = (All-right Live ys (e ∷ []) l').0 in
        let es : live ++ free ≡ ys ++ (e ∷ free) =
          ap (λ l. l ++ free) split ∙ append_assoc ys (e ∷ []) free in
        let at_e : target_at zero_score bufs exists (live ++ free) k ≡ some (target e) =
          ap₂ (target_at zero_score bufs exists) es (sym count) ∙ target_at-Live ys e free live_e in
        let cleared : modify k (clear zero_score) (live ++ free)
            ≡ ys ++ (clear zero_score e ∷ free) =
          ap₂ (λ n l. modify n (clear zero_score) l) (sym count) es
          ∙ modify-append (clear zero_score) ys e free in
        elim (Bool-cases (exists e.dbid (name bufs e.key))) [
          | inl there ↦
              subst (Scanned live free)
                (ap (λ l. (some (target e), l)) (sym cleared)
                  ∙ sym (scan_hit k (live ++ free) at_e there))
                (picked ys e [] split there tt)
          | inr ghost ↦
              subst (λ l. Scanned l free (scan zero_score bufs exists (suc k) (live ++ free)))
                (sym split)
                (extend ys e free ghost (
                  subst (Scanned ys (clear zero_score e ∷ free))
                    (ap (scan zero_score bufs exists k) (sym cleared)
                      ∙ sym (scan_ghost k (live ++ free) at_e ghost))
                    (scan-Scanned k ys (clear zero_score e ∷ free) (omega arith)
                      (All-left Live ys (e ∷ []) l') (refl, f))))
        ]
  ]
