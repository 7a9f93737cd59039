-- ===== src/Gateway/Limiter/Window.antt =====
-- No window of time holds more creations than the limit.
use deepseek_project.Base.{
  ℕ, suc, ◌+◌, ◌≤◌, ◌<◌, ◌≡◌, ◌↔◌, refl, List, [], ◌∷◌, ◌++◌, false, if◌then◌else◌, ltb, leb, ◌&&◌,
  length, arith, Bool-cases, inl, inr, ap, ◌∙◌, sym,
}
use deepseek_project.Gateway.Limiter.{CreateLimiter, new_create_limiter, keep, allow, run}

-- The clock does not go back.
abbrev pub IsAscending : ℕ → List ℕ → Type 0
IsAscending last [] = Unit
IsAscending last (t ∷ times) = (last ≤ t) × IsAscending t times

-- The creations granted up to `last`, newest first, no more than `limit` of them in any window that
-- ends with one of them.
abbrev pub IsLimited : ℕ → ℕ → ℕ → List ℕ → Type 0
IsLimited limit window last [] = Unit
IsLimited limit window last (g ∷ old) =
    (g ≤ last) × (length (keep window g (g ∷ old)) ≤ limit) × IsLimited limit window g old

IsLimited-mono :
    (limit window last later : ℕ) (gs : List ℕ)
    → last ≤ later
    → IsLimited limit window last gs
    → IsLimited limit window later gs
IsLimited-mono limit window last later [] h i = tt
IsLimited-mono limit window last later (g ∷ old) h i = (omega arith, i.1, i.2)

-- How many of the times lie after `from` and at most a window later.
pub count_within : ℕ → ℕ → List ℕ → ℕ
count_within window from [] = 0
count_within window from (t ∷ times) =
    let rest = count_within window from times in
    if ltb from t && leb t (from + window) then suc rest else rest

-- Times after `from` are still kept at a time that is at most a window after `from`.
count_within-le-keep :
    (window from now : ℕ) (gs : List ℕ)
    → now ≤ from + window
    → count_within window from gs ≤ length (keep window now gs)
unfolding count_within keep
count_within-le-keep window from now [] h = omega arith
count_within-le-keep window from now (g ∷ gs) h =
    ground (arith, count_within-le-keep window from now gs h)

count_within_old :
    (limit window from last : ℕ) (gs : List ℕ)
    → IsLimited limit window last gs
    → last ≤ from
    → count_within window from gs ≡ 0
unfolding count_within
count_within_old limit window from last [] i h = refl
count_within_old limit window from last (g ∷ old) i h =
    ground (arith, count_within_old limit window from g old i.2)

count_within-le :
    (limit window from last : ℕ) (gs : List ℕ)
    → IsLimited limit window last gs
    → count_within window from gs ≤ limit
unfolding count_within
count_within-le limit window from last [] i = omega arith
count_within-le limit window from last (g ∷ old) i = elim (Bool-cases (leb g (from + window))) [
  | inl near ↦ ground (arith, count_within-le-keep window from g (g ∷ old))
  | inr far ↦ ground (arith, count_within-le limit window from g old i.2)
]

-- The stamps kept are, as far as their number matters, the creations granted.
record Tracks (limit window last : ℕ) (l : CreateLimiter) (granted : List ℕ) : Type 0 where
  same_limit : l.limit ≡ limit
  same_window : l.window ≡ window
  limited : IsLimited limit window last granted
  same :
      (now : ℕ) → last ≤ now → length (keep window now l.stamps) ≡ length (keep window now granted)

keep-keep :
    (window now later : ℕ) (ts : List ℕ)
    → now ≤ later
    → keep window later (keep window now ts) ≡ keep window later ts
unfolding keep
keep-keep window now later [] h = refl
keep-keep window now later (t ∷ ts) h = ground (arith, keep-keep window now later ts h)

length-keep-append :
    (window now : ℕ) (xs ys : List ℕ)
    → length (keep window now (xs ++ ys))
      ≡ length (keep window now xs) + length (keep window now ys)
unfolding keep
length-keep-append window now [] ys = omega arith
length-keep-append window now (x ∷ xs) ys = ground (arith, length-keep-append window now xs ys)

length-keep-cons :
    (window now t : ℕ) (ts : List ℕ)
    → length (keep window now (t ∷ ts)) ≤ suc (length (keep window now ts))
unfolding keep
length-keep-cons window now t ts = ground arith

same_kept :
    (limit window last now later : ℕ) (l : CreateLimiter) (granted : List ℕ)
    → last ≤ now
    → now ≤ later
    → Tracks limit window last l granted
    → length (keep window later (keep window now l.stamps)) ≡ length (keep window later granted)
same_kept limit window last now later l granted h k t =
    ap length (keep-keep window now later l.stamps k) ∙ t.same later (omega arith)

length-keep-one :
    (window now t : ℕ) (ts : List ℕ)
    → length (keep window now (t ∷ ts))
      ≡ length (keep window now ts) + length (keep window now (t ∷ []))
unfolding keep
length-keep-one window now t ts = ground arith

module _ (limit window last now : ℕ) (l : CreateLimiter) (granted : List ℕ) (h : last ≤ now)
    (t : Tracks limit window last l granted) where
  refused-Tracks :
      Tracks limit window now (record l { stamps = keep l.window now l.stamps }) granted
  refused-Tracks = record {
    same_limit = t.same_limit;
    same_window = t.same_window;
    limited = IsLimited-mono limit window last now granted h t.limited;
    same = λ later k. rw t.same_window (same_kept limit window last now later l granted h k t);
  }

  granted-Tracks :
      length (keep l.window now l.stamps) < l.limit
      → Tracks limit window now
          (record l { stamps = keep l.window now l.stamps ++ now ∷ [] })
          (now ∷ granted)
  granted-Tracks room = record {
    same_limit = t.same_limit;
    same_window = t.same_window;
    limited = (
      omega arith,
      omega (
        arith,
        length-keep-cons window now now granted,
        t.same now h,
        t.same_limit,
        ap (λ w. length (keep w now l.stamps)) t.same_window,
      ),
      IsLimited-mono limit window last now granted h t.limited,
    );
    same = λ later k. rw t.same_window (
        length-keep-append window later (keep window now l.stamps) (now ∷ [])
        ∙ ap (λ n. n + length (keep window later (now ∷ [])))
            (same_kept limit window last now later l granted h k t)
        ∙ sym (length-keep-one window later now granted));
  }

  allow-Tracks :
      let (l', ok) = allow now l in
      Tracks limit window now l' (if ok then now ∷ granted else granted)
  unfolding allow
  allow-Tracks = elim (Bool-cases (leb l.limit (length (keep l.window now l.stamps)))) [
    | inl full ↦ ground (arith, refused-Tracks)
    | inr room ↦ ground (arith, granted-Tracks)
  ]

run-IsLimited :
    (limit window last : ℕ) (l : CreateLimiter) (granted times : List ℕ)
    → Tracks limit window last l granted
    → IsAscending last times
    → (end : ℕ) × IsLimited limit window end (run l granted times)
unfolding run
run-IsLimited limit window last l granted [] t a = (last, t.limited)
run-IsLimited limit window last l granted (now ∷ times) t a =
    let (l', ok) = allow now l in
    run-IsLimited limit window now l' (if ok then now ∷ granted else granted) times
      (allow-Tracks limit window last now l granted a.0 t) a.1

new-Tracks : (limit window : ℕ) → Tracks limit window 0 (new_create_limiter limit window) []
unfolding new_create_limiter
new-Tracks limit window = record {
  same_limit = refl;
  same_window = refl;
  limited = tt;
  same = λ now h. refl;
}

-- Whenever the creations are asked for, at times that do not go back, at most `limit` of them are
-- allowed in any window of time, wherever it begins.
pub run-within-limit :
    (limit window from : ℕ) (times : List ℕ)
    → IsAscending 0 times
    → count_within window from (run (new_create_limiter limit window) [] times) ≤ limit
run-within-limit limit window from times a =
    let (end, i) = run-IsLimited limit window 0 _ [] times (new-Tracks limit window) a in
    count_within-le limit window from end _ i

allow_refused :
    (limit window last now : ℕ) (l : CreateLimiter) (granted : List ℕ)
    → Tracks limit window last l granted
    → last ≤ now
    → ((allow now l).1 ≡ false) ↔ (limit ≤ length (keep window now granted))
unfolding allow
allow_refused limit window last now l granted t h =
    let e = ap (λ w. length (keep w now l.stamps)) t.same_window ∙ t.same now h in
    ground (arith, e, t.same_limit)

-- The limiter after the calls at the times given.
abbrev pub after : CreateLimiter → List ℕ → CreateLimiter
after l [] = l
after l (now ∷ times) = after (allow now l).0 times

after-refused :
    (limit window last now : ℕ) (l : CreateLimiter) (granted times : List ℕ)
    → Tracks limit window last l granted
    → IsAscending last (times ++ now ∷ [])
    → ((allow now (after l times)).1 ≡ false)
      ↔ (limit ≤ length (keep window now (run l granted times)))
unfolding run
after-refused limit window last now l granted [] t a =
    allow_refused limit window last now l granted t a.0
after-refused limit window last now l granted (x ∷ times) t a =
    after-refused limit window x now (allow x l).0 (if (allow x l).1 then x ∷ granted else granted)
      times (allow-Tracks limit window last x l granted a.0 t) a.1

-- After any requests, the next one is refused exactly when at least `limit` of the creations that were
-- allowed are less than a window old.
pub allow_refused_iff :
    (limit window now : ℕ) (times : List ℕ)
    → IsAscending 0 (times ++ now ∷ [])
    → ((allow now (after (new_create_limiter limit window) times)).1 ≡ false)
      ↔ (limit ≤ length (keep window now (run (new_create_limiter limit window) [] times)))
allow_refused_iff limit window now times a =
    after-refused limit window 0 now _ [] times (new-Tracks limit window) a
