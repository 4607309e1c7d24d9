-- ===== src/Mvar/History.antt =====
-- What every reachable state of the shared variable satisfies.
use tp_so_grupo.Base.{
  ℕ, zero, suc, ◌+◌, ◌≤◌, ◌≡◌, ◌⊎◌, inl, inr, refl, sym, ap, ◌∙◌, subst, none, some, Bool, true,
  false, not, ◌||◌, ℤ, Bool-cases, Option-cases, ◌==◌, if◌then◌else◌, List, [], ◌∷◌, ◌++◌,
  append-nil, get_elem?, length, arith,
}
use mathlib.Core.Option.{some-injective}
use tp_so_grupo.Mvar.{
  Phase, putting, posting, getting, resetting, returning, System, mvar_put, mvar_get, access, Step,
  put, get, go_on, leave, Reach, start, later, mvar_init, start_with, open_both, open_full, fresh,
  give_back, drop_at, take_one, not_positive,
}

-- One operation runs alone, in the phase `p`: what is sent and not received then.
abbrev Alone : Phase → System → Type 0
Alone (putting v) s = s.sent ≡ s.taken
Alone (posting v) s = (s.value ≡ v) × (s.sent ≡ s.taken ++ v ∷ [])
Alone getting s = s.sent ≡ s.taken ++ s.value ∷ []
Alone (resetting v) s = s.sent ≡ s.taken ++ v ∷ []
Alone (returning v) s = s.sent ≡ s.taken ++ v ∷ []

-- The slot is empty, or full, or one operation has it.
abbrev Balanced : List Phase → System → Type 0
Balanced [] s =
    ((s.empty ≡ 1) × (s.full ≡ 0) × (s.sent ≡ s.taken))
    ⊎ ((s.empty ≡ 0) × (s.full ≡ 1) × (s.sent ≡ s.taken ++ s.value ∷ []))
Balanced (p ∷ []) s = (s.empty ≡ 0) × (s.full ≡ 0) × Alone p s
Balanced (p ∷ q ∷ ps) s = ⊥

abbrev mk : (e f x : ℕ) → List Phase → (left sent taken received : List ℕ) → System
mk e f x ps left sent taken received = record {
  empty = e;
  full = f;
  value = x;
  inside = ps;
  leaving = left;
  sent = sent;
  taken = taken;
  received = received;
}

-- An operation that passes its wait found the slot in the state that it waited for, and nobody in.
put-Balanced :
    (v e f x : ℕ) (ps : List Phase) (left sent taken received : List ℕ) (t : System)
    → Balanced ps (mk e f x ps left sent taken received)
    → mvar_put v (mk e f x ps left sent taken received) ≡ some t
    → Balanced t.inside t
unfolding mvar_put
put-Balanced v zero f x ps left sent taken received t b h = cc
put-Balanced v (suc e) f x [] left sent taken received t (inl (one, none_full, same)) h =
    subst (λ u. Balanced u.inside u) (some-injective _ _ h) (omega arith, none_full, same)
put-Balanced v (suc e) f x [] left sent taken received t (inr (z, w, same)) h = absurd (omega arith)
put-Balanced v (suc e) f x (p ∷ []) left sent taken received t (z, w, a) h = absurd (omega arith)
put-Balanced v (suc e) f x (p ∷ q ∷ ps) left sent taken received t b h = absurd b

get-Balanced :
    (e f x : ℕ) (ps : List Phase) (left sent taken received : List ℕ) (t : System)
    → Balanced ps (mk e f x ps left sent taken received)
    → mvar_get (mk e f x ps left sent taken received) ≡ some t
    → Balanced t.inside t
unfolding mvar_get
get-Balanced e zero x ps left sent taken received t b h = cc
get-Balanced e (suc f) x [] left sent taken received t (inl (one, w, same)) h = absurd (omega arith)
get-Balanced e (suc f) x [] left sent taken received t (inr (z, one, same)) h =
    subst (λ u. Balanced u.inside u) (some-injective _ _ h) (z, omega arith, same)
get-Balanced e (suc f) x (p ∷ []) left sent taken received t (z, w, a) h = absurd (omega arith)
get-Balanced e (suc f) x (p ∷ q ∷ ps) left sent taken received t b h = absurd b

run-Balanced :
    (p : Phase) (e f x : ℕ) (q : Phase) (left sent taken received : List ℕ)
    → e ≡ 0
    → f ≡ 0
    → Alone p (mk e f x (q ∷ []) left sent taken received)
    → Balanced
        (access 0 p (mk e f x (q ∷ []) left sent taken received)).inside
        (access 0 p (mk e f x (q ∷ []) left sent taken received))
unfolding access
run-Balanced (putting v) e f x q left sent taken received z w a =
    (z, w, (refl, ap (λ l. l ++ v ∷ []) a))
run-Balanced (posting v) e f x q left sent taken received z w (written, a) =
    inr (z, omega arith, a ∙ ap (λ y. taken ++ y ∷ []) (sym written))
run-Balanced getting e f x q left sent taken received z w a = (z, w, a)
run-Balanced (resetting v) e f x q left sent taken received z w a = (z, w, a)
run-Balanced (returning v) e f x q left sent taken received z w a = inl (omega arith, w, a)

access-Balanced :
    (i : ℕ) (p : Phase) (e f x : ℕ) (ps : List Phase) (left sent taken received : List ℕ)
    → Balanced ps (mk e f x ps left sent taken received)
    → get_elem? ps i ≡ some p
    → Balanced
        (access i p (mk e f x ps left sent taken received)).inside
        (access i p (mk e f x ps left sent taken received))
access-Balanced i p e f x [] left sent taken received b h = cc
access-Balanced (suc i) p e f x (q ∷ []) left sent taken received b h = cc
access-Balanced i p e f x (q ∷ r ∷ ps) left sent taken received b h = absurd b
access-Balanced zero p e f x (q ∷ []) left sent taken received (z, w, a) h =
    run-Balanced p e f x q left sent taken received z w
      (subst (λ r. Alone r (mk e f x (q ∷ []) left sent taken received)) (some-injective q p h) a)

Alone-give_back :
    (p : Phase) (i v e f x : ℕ) (ps : List Phase) (left sent taken received : List ℕ)
    → Alone p (mk e f x ps left sent taken received)
    → Alone p (give_back i v (mk e f x ps left sent taken received))
unfolding give_back
Alone-give_back (putting w) i v e f x ps left sent taken received a = a
Alone-give_back (posting w) i v e f x ps left sent taken received a = a
Alone-give_back getting i v e f x ps left sent taken received a = a
Alone-give_back (resetting w) i v e f x ps left sent taken received a = a
Alone-give_back (returning w) i v e f x ps left sent taken received a = a

-- A return changes nothing of the slot.
give_back-Balanced :
    (i v e f x : ℕ) (ps : List Phase) (left sent taken received : List ℕ)
    → Balanced ps (mk e f x ps left sent taken received)
    → Balanced
        (give_back i v (mk e f x ps left sent taken received)).inside
        (give_back i v (mk e f x ps left sent taken received))
unfolding give_back
give_back-Balanced i v e f x [] left sent taken received b = b
give_back-Balanced i v e f x (p ∷ []) left sent taken received (z, w, a) =
    (z, w, Alone-give_back p i v e f x (p ∷ []) left sent taken received a)
give_back-Balanced i v e f x (p ∷ q ∷ ps) left sent taken received b = absurd b

Step-Balanced : {s t : System} → Step s t → Balanced s.inside s → Balanced t.inside t
Step-Balanced {s = s} {t = t} (put v h) b =
    put-Balanced v s.empty s.full s.value s.inside s.leaving s.sent s.taken s.received t b h
Step-Balanced {s = s} {t = t} (get h) b =
    get-Balanced s.empty s.full s.value s.inside s.leaving s.sent s.taken s.received t b h
Step-Balanced {s = s} (go_on i p at e) b =
    subst (λ u. Balanced u.inside u) (sym e)
      (access-Balanced i p s.empty s.full s.value s.inside s.leaving s.sent s.taken s.received b at)
Step-Balanced {s = s} (leave i v at e) b =
    subst (λ u. Balanced u.inside u) (sym e)
      (give_back-Balanced i v s.empty s.full s.value s.inside s.leaving s.sent s.taken s.received b)

init-granted :
    (granted : Bool) (s : System)
    → (if not granted then none else open_both (some 1) fresh) ≡ some s
    → start_with 1 0 ≡ s
unfolding open_both open_full
init-granted true s e = some-injective _ s e
init-granted false s e = cc

-- A successful `mvarInit` with new semaphores leaves an empty slot.
init-eq :
    (readers writers : ℤ) (granted : Bool) (s : System)
    → mvar_init readers writers granted fresh fresh ≡ some s
    → start_with 1 0 ≡ s
unfolding mvar_init
init-eq readers writers granted s e =
    elim (Bool-cases (not_positive readers || not_positive writers)) [
      | inl bad ↦ let no : none ≡ some s = rw (mvar_init, bad) at e in cc
      | inr good ↦ init-granted granted s (rw (mvar_init, good) at e)
    ]

Reach-Balanced : {s : System} → Reach s → Balanced s.inside s
Reach-Balanced (start {s} readers writers granted e) =
    subst (λ u. Balanced u.inside u) (init-eq readers writers granted s e) (inl (refl, refl, refl))
Reach-Balanced (later r st) = Step-Balanced st (Reach-Balanced r)

-- How often a byte stands in a list.
abbrev pub occurrences : ℕ → List ℕ → ℕ
occurrences b [] = 0
occurrences b (x ∷ xs) = (if b == x then 1 else 0) + occurrences b xs

occurrences-append :
    (b : ℕ) (xs ys : List ℕ) → occurrences b (xs ++ ys) ≡ occurrences b xs + occurrences b ys
occurrences-append b [] ys = omega arith
occurrences-append b (x ∷ xs) ys = omega (arith, occurrences-append b xs ys)

occurrences-drop_at :
    (b i v : ℕ) (xs : List ℕ)
    → get_elem? xs i ≡ some v
    → occurrences b (drop_at i xs) + occurrences b (v ∷ []) ≡ occurrences b xs
occurrences-drop_at b i v [] e = cc
occurrences-drop_at b zero v (x ∷ xs) e =
    let same : x ≡ v = some-injective x v e in rw same (omega arith)
occurrences-drop_at b (suc i) v (x ∷ xs) e = omega (arith, occurrences-drop_at b i v xs e)

-- Every byte that a get posted for was returned, or its get has not returned yet.
abbrev pub IsReturned : System → Type 0
IsReturned s = (b : ℕ) → occurrences b s.received + occurrences b s.leaving ≡ occurrences b s.taken

access-IsReturned : (i : ℕ) (p : Phase) (s : System) → IsReturned s → IsReturned (access i p s)
unfolding access
access-IsReturned i (putting v) s h b = h b
access-IsReturned i (posting v) s h b = h b
access-IsReturned i getting s h b = h b
access-IsReturned i (resetting v) s h b = h b
access-IsReturned i (returning v) s h b =
    omega
      (arith, h b, occurrences-append b s.leaving (v ∷ []), occurrences-append b s.taken (v ∷ []))

put-IsReturned : (v : ℕ) (s t : System) → mvar_put v s ≡ some t → IsReturned s → IsReturned t
unfolding mvar_put
put-IsReturned v s t e h = elim (Option-cases (take_one s.empty)) [
  | inl z ↦ let no : none ≡ some t = rw (mvar_put, z) at e in cc
  | inr (n, z) ↦ subst IsReturned (some-injective _ t (rw (mvar_put, z) at e)) h
]

get-IsReturned : (s t : System) → mvar_get s ≡ some t → IsReturned s → IsReturned t
unfolding mvar_get
get-IsReturned s t e h = elim (Option-cases (take_one s.full)) [
  | inl z ↦ let no : none ≡ some t = rw (mvar_get, z) at e in cc
  | inr (n, z) ↦ subst IsReturned (some-injective _ t (rw (mvar_get, z) at e)) h
]

give_back-IsReturned :
    (i v : ℕ) (s : System)
    → get_elem? s.leaving i ≡ some v
    → IsReturned s
    → IsReturned (give_back i v s)
unfolding give_back
give_back-IsReturned i v s at h b =
    omega
      (arith, h b, occurrences-append b s.received (v ∷ []), occurrences-drop_at b i v s.leaving at)

Step-IsReturned : {s t : System} → Step s t → IsReturned s → IsReturned t
Step-IsReturned {s} {t} (put v e) h = put-IsReturned v s t e h
Step-IsReturned {s} {t} (get e) h = get-IsReturned s t e h
Step-IsReturned {s} (go_on i p at e) h = subst IsReturned (sym e) (access-IsReturned i p s h)
Step-IsReturned {s} (leave i v at e) h = subst IsReturned (sym e) (give_back-IsReturned i v s at h)

Reach-IsReturned : {s : System} → Reach s → IsReturned s
Reach-IsReturned (start {s} readers writers granted e) =
    subst IsReturned (init-eq readers writers granted s e) (λ b. omega arith)
Reach-IsReturned (later r st) = Step-IsReturned st (Reach-IsReturned r)

-- At most one operation runs, and the bytes come out in order.
pub record IsExclusive (s : System) : Type 0 where
  pub alone : length s.inside ≤ 1
  pub balance : s.empty + s.full + length s.inside ≡ 1
  pub pending : List ℕ
  pub waiting : length pending ≤ 1
  pub history : s.sent ≡ s.taken ++ pending
  pub returned : IsReturned s

one_pending :
    (s : System) (v : ℕ)
    → length s.inside ≤ 1
    → s.empty + s.full + length s.inside ≡ 1
    → s.sent ≡ s.taken ++ v ∷ []
    → IsReturned s
    → IsExclusive s
one_pending s v a b h r = record {
  alone = a;
  balance = b;
  pending = v ∷ [];
  waiting = omega arith;
  history = h;
  returned = r;
}

none_pending :
    (s : System)
    → length s.inside ≤ 1
    → s.empty + s.full + length s.inside ≡ 1
    → s.sent ≡ s.taken
    → IsReturned s
    → IsExclusive s
none_pending s a b h r = record {
  alone = a;
  balance = b;
  pending = [];
  waiting = omega arith;
  history = h ∙ sym (append-nil s.taken);
  returned = r;
}

Alone-IsExclusive :
    (p : Phase) (s : System)
    → length s.inside ≤ 1
    → s.empty + s.full + length s.inside ≡ 1
    → Alone p s
    → IsReturned s
    → IsExclusive s
Alone-IsExclusive (putting v) s l b a r = none_pending s l b a r
Alone-IsExclusive (posting v) s l b a r = one_pending s v l b a.1 r
Alone-IsExclusive getting s l b a r = one_pending s s.value l b a r
Alone-IsExclusive (resetting v) s l b a r = one_pending s v l b a r
Alone-IsExclusive (returning v) s l b a r = one_pending s v l b a r

Balanced-IsExclusive :
    (ps : List Phase) (s : System) → ps ≡ s.inside → Balanced ps s → IsReturned s → IsExclusive s
Balanced-IsExclusive [] s e (inl (one, z, h)) r =
    none_pending s (omega (arith, ap length e)) (omega (arith, ap length e)) h r
Balanced-IsExclusive [] s e (inr (z, one, h)) r =
    one_pending s s.value (omega (arith, ap length e)) (omega (arith, ap length e)) h r
Balanced-IsExclusive (p ∷ []) s e (z, w, a) r =
    Alone-IsExclusive p s (omega (arith, ap length e)) (omega (arith, ap length e)) a r
Balanced-IsExclusive (p ∷ q ∷ ps) s e b r = absurd b

-- In every state that writers and readers of the shared byte reach, in any order of their accesses
-- and returns, from an `mvarInit` that succeeds and finds no semaphore of an earlier run: at most one
-- operation is past its wait and before the end of its post, the two semaphores and these operations
-- add up to 1, the bytes written so far are those that gets have posted for, in the same order,
-- followed by at most one, and each byte that gets have posted for was returned or is held by a get
-- that has posted and not yet returned, as often as it was taken.
pub Reach-IsExclusive : {s : System} → Reach s → IsExclusive s
Reach-IsExclusive {s = s} r =
    Balanced-IsExclusive s.inside s refl (Reach-Balanced r) (Reach-IsReturned r)
