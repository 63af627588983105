-- ===== src/Libc/Regex/Explores.antt =====
-- user/libc/src/regex.c: what a part of the search finds, of the ends of matches that it looks for.
use shit_os.Prelude.{
  ℕ, ◌≤◌, ◌<◌, ◌≡◌, ◌∙◌, sym, ◌⊎◌, inl, inr, refl, ap, arith, Bool, true, false, not, ◌||◌, Option,
  some, ltb, if◌then◌else◌,
}
use mathlib.Core.Path.{subst}
use shit_os.Libc.Regex.Matcher.{State, Span, or_else, restored, put_span, recorded, record_match}

-- a state that differs in captures, best spans and budget only
pub record Alike (s s' : State) : Type 0 where
  pub found : s'.found ≡ s.found
  pub best_end : s'.best_end ≡ s.best_end

-- the whole match starts at a place, in the path and in the best match
pub record Starts (from : ℕ) (s : State) : Type 0 where
  pub path : (s.captures 0).start ≡ some from
  pub best : s.found ≡ true → s.best 0 ≡ record { start = some from; end = some s.best_end }

-- a search for ends: what it records is one of them; unless it was cut short it records none below any of
-- them; it never forgets; and it is cut short only by the end of the budget
pub record Explores (from : ℕ) (E : ℕ → Type 0) (s : State) (r : Bool × State) : Type 0 where
  pub sound : Alike s r.1 ⊎ ((r.1.found ≡ true) × E r.1.best_end)
  pub complete : r.0 ≡ false → (e : ℕ) → E e → (r.1.found ≡ true) × (e ≤ r.1.best_end)
  pub kept : s.found ≡ true → (r.1.found ≡ true) × (s.best_end ≤ r.1.best_end)
  pub starts : Starts from s → Starts from r.1
  pub less : r.1.budget ≤ s.budget
  pub spent : r.0 ≡ true → r.1.budget ≡ 0

pub put_span_other :
    (index : ℕ) (span : Span) (spans : ℕ → Span) → 0 < index → put_span index span spans 0 ≡ spans 0
put_span_other index span spans p = ground (arith, p)

module _ (from : ℕ) where
  pub cut-Explores : (E : ℕ → Type 0) (s : State) → s.budget ≡ 0 → Explores from E s (true, s)
  cut-Explores E s b = record {
    sound = inl record { found = refl; best_end = refl };
    complete = λ h. absurd (ground (arith, h));
    kept = λ h. (h, omega arith);
    starts = λ h. h;
    less = omega arith;
    spent = λ _. b;
  }

  pub nothing-Explores :
      (E : ℕ → Type 0) (s : State) → ((e : ℕ) → ¬ E e) → Explores from E s (false, s)
  nothing-Explores E s n = record {
    sound = inl record { found = refl; best_end = refl };
    complete = λ h e x. absurd (n e x);
    kept = λ h. (h, omega arith);
    starts = λ h. h;
    less = omega arith;
    spent = λ h. absurd (ground (arith, h));
  }

  -- the same search from a state that differs in what it does not read
  pub Explores-same :
      (E F : ℕ → Type 0) (s s' : State) (r : Bool × State)
      → Alike s s'
      → s'.budget ≤ s.budget
      → (Starts from s → Starts from s')
      → ((e : ℕ) → E e → F e)
      → ((e : ℕ) → F e → E e)
      → Explores from E s' r
      → Explores from F s r
  Explores-same E F s s' r a b c to back x = record {
    sound = elim x.sound [
      | inl d ↦ inl record { found = d.found ∙ a.found; best_end = d.best_end ∙ a.best_end }
      | inr (f, d) ↦ inr (f, to r.1.best_end d)
    ];
    complete = λ h e y. x.complete h e (back e y);
    kept = λ h. let k = x.kept (a.found ∙ h) in (k.0, omega (arith, k.1, a.best_end));
    starts = λ h. x.starts (c h);
    less = omega (arith, x.less, b);
    spent = x.spent;
  }

  -- the same ends in other words
  pub Explores-ends :
      (E F : ℕ → Type 0) (s : State) (r : Bool × State)
      → ((e : ℕ) → E e → F e)
      → ((e : ℕ) → F e → E e)
      → Explores from E s r
      → Explores from F s r
  Explores-ends E F s r to back x =
      Explores-same E F s s r (record { found = refl; best_end = refl }) (omega arith) (λ h. h) to
        back x

  pub Starts-put :
      (s : State) (index : ℕ) (span : Span)
      → 0 < index
      → Starts from s
      → Starts from (record s { captures = put_span index span s.captures })
  Starts-put s index span p h = record {
    path = ap (λ (x : Span). x.start) (put_span_other index span s.captures p) ∙ h.path;
    best = h.best;
  }

  pub restored-Explores :
      (E : ℕ → Type 0) (s : State) (index : ℕ) (span : Span) (r : Bool × State)
      → 0 < index
      → Explores from E s r
      → Explores from E s (restored index span r)
  restored-Explores E s index span (true, s') p x = x
  restored-Explores E s index span (false, s') p x = record {
    sound = elim x.sound [
      | inl b ↦ inl record { found = b.found; best_end = b.best_end }
      | inr b ↦ inr b
    ];
    complete = x.complete;
    kept = x.kept;
    starts = λ h. Starts-put s' index span p (x.starts h);
    less = x.less;
    spent = x.spent;
  }

  pub Starts-either :
      (b : Bool) (s : State) (index : ℕ) (span : Span)
      → 0 < index
      → Starts from s
      → Starts from
          (record s { captures = if b then put_span index span s.captures else s.captures })
  Starts-either true s index span p h = Starts-put s index span p h
  Starts-either false s index span p h = record { path = h.path; best = h.best }

  -- what two parts found, one after the other
  join :
      (E F : ℕ → Type 0) (s s' s'' : State)
      → Alike s s' ⊎ ((s'.found ≡ true) × E s'.best_end)
      → Alike s' s'' ⊎ ((s''.found ≡ true) × F s''.best_end)
      → Alike s s'' ⊎ ((s''.found ≡ true) × (E s''.best_end ⊎ F s''.best_end))
  join E F s s' s'' x (inr (f, b)) = inr (f, inr b)
  join E F s s' s'' (inl a) (inl b) =
      inl record { found = b.found ∙ a.found; best_end = b.best_end ∙ a.best_end }
  join E F s s' s'' (inr (f, a)) (inl b) = inr (b.found ∙ f, inl (subst E (sym b.best_end) a))

  pub or_else-Explores :
      (E F : ℕ → Type 0) (s : State) (r : Bool × State) (more : State → Bool × State)
      → Explores from E s r
      → ((s' : State) → s'.budget ≤ s.budget → Explores from F s' (more s'))
      → Explores from (λ e. E e ⊎ F e) s (or_else r more)
  or_else-Explores E F s (true, s') more x y = record {
    sound = elim x.sound [ inl a ↦ inl a | inr (f, e) ↦ inr (f, inl e) ];
    complete = λ h. absurd (ground (arith, h));
    kept = x.kept;
    starts = x.starts;
    less = x.less;
    spent = x.spent;
  }
  or_else-Explores E F s (false, s') more x y =
      let z = y s' x.less in
      record {
        sound = join E F s s' (more s').1 x.sound z.sound;
        complete = λ h e w. elim w [
          | inl a ↦
              let k = x.complete refl e a in let l = z.kept k.0 in (l.0, omega (arith, k.1, l.1))
          | inr b ↦ z.complete h e b
        ];
        kept = λ h. let k = x.kept h in let l = z.kept k.0 in (l.0, omega (arith, k.1, l.1));
        starts = λ h. z.starts (x.starts h);
        less = omega (arith, x.less, z.less);
        spent = z.spent;
      }

  pub guarded-Explores :
      (b : Bool) (E : ℕ → Type 0) (s : State) (r : Bool × State)
      → (b ≡ true → Explores from E s r)
      → Explores from (λ e. (b ≡ true) × E e) s (if b then r else (false, s))
  guarded-Explores true E s r x =
      Explores-ends E (λ e. (true ≡ true) × E e) s r (λ e y. (refl, y)) (λ e (_, y). y) (x refl)
  guarded-Explores false E s r x =
      nothing-Explores (λ e. (false ≡ true) × E e) s (λ e (y, _). ground (arith, y))

  pub either-Explores :
      (b : Bool) (E F : ℕ → Type 0) (s : State) (r t : Bool × State)
      → (b ≡ true → Explores from E s r)
      → (b ≡ false → Explores from F s t)
      → Explores from (λ e. ((b ≡ true) × E e) ⊎ ((b ≡ false) × F e)) s (if b then r else t)
  either-Explores true E F s r t x y =
      Explores-ends E (λ e. ((true ≡ true) × E e) ⊎ ((true ≡ false) × F e)) s r
        (λ e z. inl (refl, z))
        (λ e z. elim z [ inl (_, w) ↦ w | inr (z', _) ↦ absurd (ground (arith, z')) ]) (x refl)
  either-Explores false E F s r t x y =
      Explores-ends F (λ e. ((false ≡ true) × E e) ⊎ ((false ≡ false) × F e)) s t
        (λ e z. inr (refl, z))
        (λ e z. elim z [ inl (z', _) ↦ absurd (ground (arith, z')) | inr (_, w) ↦ w ]) (y refl)

  either :
      (E : ℕ → Type 0) (s t : State) (b : Bool)
      → (b ≡ true → Explores from E s (false, t))
      → (b ≡ false → Explores from E s (false, s))
      → Explores from E s (false, if b then t else s)
  either E s t true x y = x refl
  either E s t false x y = y refl

  -- the empty continuation looks for its own position
  pub record_match-Explores :
      (position : ℕ) (s : State)
      → Explores from (λ e. position ≡ e) s (false, record_match position s)
  record_match-Explores position s =
      either (λ e. position ≡ e) s (recorded position s) (not s.found || ltb s.best_end position)
        (λ h. record {
          sound = inr (refl, refl);
          complete = λ _ e w. (refl, omega (arith, w));
          kept = λ f. (refl, ground (arith, h, f));
          starts = λ b. record {
            path = b.path;
            best = λ _. ap (λ (o : Option ℕ). record { start = o; end = some position }) b.path;
          };
          less = omega arith;
          spent = λ f. absurd (ground (arith, f));
        })
        (λ h. record {
          sound = inl record { found = refl; best_end = refl };
          complete = λ _ e w. (ground (arith, h), ground (arith, h, w));
          kept = λ f. (f, omega arith);
          starts = λ b. b;
          less = omega arith;
          spent = λ f. absurd (ground (arith, f));
        })
