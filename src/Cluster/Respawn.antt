-- ===== src/Cluster/Respawn.antt =====
-- The rate cap on respawns in `startPrimary`, src/infrastructure/cluster/cluster-primary.ts.
use native.Mathlib.Nat.{le_trans}
use nestjs_ddd.Prelude.{
  ℕ, ◌+◌, ◌≤◌, ◌<◌, Bool, true, false, ◌&&◌, List, [], ◌∷◌, ◌++◌, arith, ltb, leb, length, count_if,
  count_if-append, count_if-le-length, if◌then◌else◌, append-nil, append_assoc, Bool-cases, inl,
  inr,
}

-- `RESPAWN_WINDOW_MS`
abbrev pub respawn_window_ms : ℕ
respawn_window_ms = 60_000

-- The `while` loop: `respawnTimestamps[0] < windowStart`, with the window on the other side.
unfoldable pub drop_old : ℕ → List ℕ → List ℕ
drop_old now [] = []
drop_old now (s ∷ ss) =
    let rest = drop_old now ss in if ltb (s + respawn_window_ms) now then rest else s ∷ ss

-- Whether a respawn is allowed, and the timestamps afterwards: `now` is read for the start of the
-- window, and `now'` for the timestamp that is pushed.
unfoldable pub admit : ℕ → ℕ → ℕ → List ℕ → Bool × List ℕ
admit limit now now' stamps =
    let kept = drop_old now stamps in
    if leb limit (length kept) then (false, kept) else (true, kept ++ now' ∷ [])

-- The times at which a row of requests for a respawn is allowed.
unfoldable pub admitted : ℕ → List (ℕ × ℕ) → List ℕ → List ℕ
admitted limit [] stamps = []
admitted limit ((now, now') ∷ calls) stamps =
    let rest = admitted limit calls (admit limit now now' stamps).1 in
    if (admit limit now now' stamps).0 then now' ∷ rest else rest

-- Whether a time lies in the window that ends at `t`.
abbrev pub in_window : ℕ → ℕ → Bool
in_window t x = leb t (x + respawn_window_ms) && leb x t

-- The clock does not go back.
abbrev pub InOrder : ℕ → List (ℕ × ℕ) → Type 0
InOrder start [] = Unit
InOrder start ((now, now') ∷ calls) = (start ≤ now) × (now ≤ now') × InOrder now' calls

count-drop_old :
    (now t : ℕ) (ss : List ℕ)
    → now ≤ t
    → count_if (in_window t) ss ≤ count_if (in_window t) (drop_old now ss)
unfolding drop_old
count-drop_old now t [] le = omega arith
count-drop_old now t (s ∷ ss) le = ground (arith, count-drop_old now t ss le)

-- `past` are the times allowed so far, and `stamps` what the loop remembers of them.
few_more :
    (limit now now' t : ℕ) (past stamps : List ℕ)
    → now ≤ now'
    → length (drop_old now stamps) < limit
    → count_if (in_window t) past ≤ limit
    → (now ≤ t → count_if (in_window t) past ≤ count_if (in_window t) stamps)
    → count_if (in_window t) (past ++ now' ∷ []) ≤ limit
few_more limit now now' t past stamps le room few known =
    rw (count_if-append (in_window t) past (now' ∷ [])) (
      ground (
        arith,
        count-drop_old now t stamps,
        count_if-le-length (in_window t) (drop_old now stamps),
      ))

known_more :
    (now now' t : ℕ) (past stamps : List ℕ)
    → now ≤ t
    → count_if (in_window t) past ≤ count_if (in_window t) stamps
    → count_if (in_window t) (past ++ now' ∷ [])
      ≤ count_if (in_window t) (drop_old now stamps ++ now' ∷ [])
known_more now now' t past stamps le known = rw (count_if-append (in_window t) past (now' ∷ [])) (
    rw (count_if-append (in_window t) (drop_old now stamps) (now' ∷ []))
      (omega (arith, count-drop_old now t stamps le)))

admitted-le :
    (limit start : ℕ) (calls : List (ℕ × ℕ)) (past stamps : List ℕ)
    → InOrder start calls
    → ((t : ℕ) → count_if (in_window t) past ≤ limit)
    → ((t : ℕ) → start ≤ t → count_if (in_window t) past ≤ count_if (in_window t) stamps)
    → (t : ℕ) → count_if (in_window t) (past ++ admitted limit calls stamps) ≤ limit
unfolding admitted admit
admitted-le limit start [] past stamps ordered few known t = rw append-nil (few t)
admitted-le limit start ((now, now') ∷ calls) past stamps (le, le', ordered) few known t =
    elim (Bool-cases (leb limit (length (drop_old now stamps)))) [
      | inl full ↦
          rw (full, admitted, admit)
            (admitted-le limit now' calls past (drop_old now stamps) ordered few
              (λ u late.
                le_trans (known u (omega arith)) (count-drop_old now u stamps (omega arith)))
              t)
      | inr room ↦
          let space : length (drop_old now stamps) < limit = ground arith in
          rw (room, admitted, admit)
            (rw
              (← append_assoc past (now' ∷ [])
                (admitted limit calls (drop_old now stamps ++ now' ∷ [])))
              (admitted-le limit now' calls (past ++ now' ∷ []) (drop_old now stamps ++ now' ∷ [])
                ordered
                (λ u.
                  few_more limit now now' u past stamps le' space (few u)
                    (λ later. known u (omega arith)))
                (λ u late. known_more now now' u past stamps (omega arith) (known u (omega arith)))
                t))
    ]

-- However the requests for a respawn come, as long as the clock does not go back, at most `limit`
-- of them are allowed in any window of a minute, wherever it ends.
pub respawns_capped :
    (limit t : ℕ) (calls : List (ℕ × ℕ))
    → InOrder 0 calls
    → count_if (in_window t) (admitted limit calls []) ≤ limit
respawns_capped limit t calls ordered =
    admitted-le limit 0 calls [] [] ordered (λ u. omega arith) (λ u le. omega arith) t
