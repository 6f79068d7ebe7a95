-- ===== src/Chan/Line.antt =====
-- Buffered Go channels with senders that wait: a send to a full channel waits, in line behind the
-- senders that wait already, and a receive lets the first of them go on.
use node_decent_system.Prelude.{
  ℕ, ◌-◌, ◌≤◌, ◌<◌, ◌≡◌, refl, sym, ap, ◌∙◌, ◌⊎◌, Bool-cases, Option, none, some, inl, inr, List,
  [], ◌∷◌, ◌++◌, arith, ltb, if◌then◌else◌, length, length-append,
}
use mathlib.Core.List.{append-nil, append_assoc}
use node_decent_system.Chan.{Chan, make_chan}

-- The channel, and the values of the senders that wait.
pub record Line {ℓ} (A : Type ℓ) : Type ℓ where
  pub chan : Chan A
  pub waiting : List A

module _ {ℓ} {A : Type ℓ} where
  unfoldable pub make_line : ℕ → Line A
  unfolding make_chan
  make_line n = record { chan = make_chan n; waiting = [] }

  -- `ch <- x`
  unfoldable pub send : Line A → A → Line A
  send l x =
      if ltb (length l.chan.items) l.chan.cap
      then record l { chan = record { cap = l.chan.cap; items = l.chan.items ++ x ∷ [] } }
      else record l { waiting = l.waiting ++ x ∷ [] }

  -- The first sender that waits gets the slot that a receive has freed.
  unfoldable pub refill : Chan A → List A → Line A
  refill c [] = record { chan = c; waiting = [] }
  refill c (w ∷ ws) = record {
    chan = record { cap = c.cap; items = c.items ++ w ∷ [] };
    waiting = ws;
  }

  unfoldable pub take_oldest : ℕ → List A → List A → Option (A × Line A)
  unfolding refill
  take_oldest cap [] ws = none
  take_oldest cap (x ∷ xs) ws = some (x, refill (record { cap = cap; items = xs }) ws)

  -- `x := <-ch`; `none` means that the receiver waits.
  unfoldable pub recv : Line A → Option (A × Line A)
  unfolding take_oldest
  recv l = take_oldest l.chan.cap l.chan.items l.waiting

  -- All values that were sent and not yet received, oldest first.
  unfoldable pub contents : Line A → List A
  contents l = l.chan.items ++ l.waiting

  -- Senders wait only for a full buffer, which is never larger than its capacity.
  pub record IsLine (l : Line A) : Type 0 where
    pub room : 0 < l.chan.cap
    pub fits : length l.chan.items ≤ l.chan.cap
    pub full : 0 < length l.waiting → length l.chan.items ≡ l.chan.cap

  pub make_line-IsLine : (n : ℕ) → 0 < n → IsLine (make_line n)
  unfolding make_line
  make_line-IsLine n h = record { room = h; fits = omega arith; full = λ w. absurd (omega arith) }

  waiting_nil : (ws : List A) → ¬ (0 < length ws) → ws ≡ []
  waiting_nil [] h = refl
  waiting_nil (w ∷ ws) h = absurd (h (omega arith))

  pub contents-send : (l : Line A) (x : A) → IsLine l → contents (send l x) ≡ contents l ++ x ∷ []
  unfolding contents send
  contents-send l x h = elim (Bool-cases (ltb (length l.chan.items) l.chan.cap)) [
    | inl room ↦
        let none_waits : l.waiting ≡ [] =
          waiting_nil l.waiting (λ w. absurd (ground (arith, h.full w))) in
        rw (room, none_waits)
          (append-nil (l.chan.items ++ x ∷ [])
            ∙ ap (λ xs. xs ++ x ∷ []) (sym (append-nil l.chan.items)))
    | inr full ↦ rw full (sym (append_assoc l.chan.items l.waiting (x ∷ [])))
  ]

  pub send-IsLine : (l : Line A) (x : A) → IsLine l → IsLine (send l x)
  unfolding send
  send-IsLine l x h = elim (Bool-cases (ltb (length l.chan.items) l.chan.cap)) [
    | inl room ↦
        let some_room : length l.chan.items < l.chan.cap = ground arith in
        rw room (record {
          room = h.room;
          fits = omega (arith, length-append l.chan.items (x ∷ []));
          full = λ w. absurd (omega (arith, h.full w));
        })
    | inr full ↦
        let no_room : l.chan.cap ≤ length l.chan.items = ground arith in
        rw full
          (record { room = h.room; fits = h.fits; full = λ w. omega (arith, h.fits, no_room) })
  ]

  -- What a receive gives on a line: the oldest value, with the rest in order and one sender less
  -- that waits.
  abbrev pub Received : Line A → A → Line A → Type ℓ
  Received l x l' =
      (contents l ≡ x ∷ contents l')
      × IsLine l'
      × (length l'.waiting ≡ length l.waiting - 1)
      × (l'.chan.cap ≡ l.chan.cap)

  -- A receive waits on a line without contents only.
  pub recv-cases :
      (l : Line A)
      → IsLine l
      → ((contents l ≡ []) × (recv l ≡ none))
        ⊎ ((x : A) × (l' : Line A) × (recv l ≡ some (x, l')) × Received l x l')
  unfolding contents recv
  recv-cases l h = oldest l.chan.items l.waiting h.room h.fits h.full
    where
      oldest :
          (xs ws : List A)
          → 0 < l.chan.cap
          → length xs ≤ l.chan.cap
          → (0 < length ws → length xs ≡ l.chan.cap)
          → ((xs ++ ws ≡ []) × (take_oldest l.chan.cap xs ws ≡ none))
            ⊎ ((x : A) × (l' : Line A) × (take_oldest l.chan.cap xs ws ≡ some (x, l'))
                × ((xs ++ ws ≡ x ∷ (l'.chan.items ++ l'.waiting))
                    × IsLine l'
                    × (length l'.waiting ≡ length ws - 1)
                    × (l'.chan.cap ≡ l.chan.cap)))
      oldest [] [] r f u = inl (refl, refl)
      oldest [] (w ∷ ws) r f u = absurd (omega (arith, u (omega arith)))
      oldest (x ∷ xs) [] r f u = inr (
        x,
        record { chan = record { cap = l.chan.cap; items = xs }; waiting = [] },
        refl,
        (
          refl,
          record { room = r; fits = omega arith; full = λ w. absurd (omega arith) },
          omega arith,
          refl,
        ),
      )
      oldest (x ∷ xs) (w ∷ ws) r f u =
          let was_full = u (omega arith) in
          inr (
            x,
            record { chan = record { cap = l.chan.cap; items = xs ++ w ∷ [] }; waiting = ws },
            refl,
            (
              ap (◌∷◌ x) (sym (append_assoc xs (w ∷ []) ws)),
              record {
                room = r;
                fits = omega (arith, length-append xs (w ∷ []));
                full = λ v. omega (arith, length-append xs (w ∷ []), was_full);
              },
              omega arith,
              refl,
            ),
          )
