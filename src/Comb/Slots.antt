-- ===== src/Comb/Slots.antt =====
-- comb.h and comb.cpp: a pair of buffers of which one is filled while the other one is used up.
use hy_gcn_a_gcn_accelerator.Base.{
  ℕ, zero, suc, ◌≡◌, ◌≢◌, refl, sym, ap, ◌∙◌, subst, List, [], ◌∷◌, Option, none, some, arith,
  length, get_elem?, set, length-set, get_elem?-set_self, get_elem?-set_ne, get_elem?-lt, some-eq,
}

-- What a buffer is for the protocol: `FILLING` and `READY` are `load`, `DRAINING` and `WRITING` are
-- `drain`, and `IDLE` is `free`.
pub data Kind : Type 0 where
  free load drain : Kind

-- What a buffer at index `k` may be, with the index of the buffer that is loaded and that of the one
-- that is drained.
pub data Role (loads drains : Option ℕ) (k : ℕ) : Kind → Type 0 where
  is_free : Role loads drains k free
  is_load : loads ≡ some k → Role loads drains k load
  is_drain : drains ≡ some k → Role loads drains k drain

pub record Slots (loads drains : Option ℕ) (ks : List Kind) : Type 0 where
  pub two : length ks ≡ 2
  pub role : (k : ℕ) (a : Kind) → get_elem? ks k ≡ some a → Role loads drains k a
  pub loaded : (k : ℕ) → loads ≡ some k → get_elem? ks k ≡ some load
  pub drained : (k : ℕ) → drains ≡ some k → get_elem? ks k ≡ some drain

-- Every entry after a write.
all-set :
    (P Q : ℕ → Kind → Type 0) (ks : List Kind) (i : ℕ) (x : Kind)
    → ((k : ℕ) (a : Kind) → get_elem? ks k ≡ some a → P k a)
    → ((k : ℕ) (a : Kind) → i ≢ k → P k a → Q k a)
    → Q i x
    → (k : ℕ) (a : Kind) → get_elem? (set ks i x) k ≡ some a
    → Q k a
all-set P Q [] i x p f q k a e = cc
all-set P Q (y ∷ ks) zero x p f q zero a e = subst (Q zero) (some-eq e) q
all-set P Q (y ∷ ks) zero x p f q (suc k) a e = f (suc k) a (λ h. omega (arith, h)) (p (suc k) a e)
all-set P Q (y ∷ ks) (suc i) x p f q zero a e = f zero a (λ h. omega (arith, h)) (p zero a e)
all-set P Q (y ∷ ks) (suc i) x p f q (suc k) a e =
    all-set (λ k. P (suc k)) (λ k. Q (suc k)) ks i x (λ k. p (suc k))
      (λ k a h. f (suc k) a (λ t. omega (arith, h, t))) q k a e

Role-load : {l d : Option ℕ} {k : ℕ} → Role l d k load → l ≡ some k
Role-load (is_load e) = e

Role-drain : {l d : Option ℕ} {k : ℕ} → Role l d k drain → d ≡ some k
Role-drain (is_drain e) = e

-- What stands at the index written, and at others.
at_self :
    (ks : List Kind) (i : ℕ) (x : Kind) {a : Kind}
    → get_elem? ks i ≡ some a
    → get_elem? (set ks i x) i ≡ some x
at_self ks i x e = get_elem?-set_self ks i x (get_elem?-lt ks i e)

at_other :
    (ks : List Kind) (i k : ℕ) (x : Kind) {a b : Kind}
    → get_elem? ks i ≡ some a
    → get_elem? ks k ≡ some b
    → a ≢ b
    → get_elem? (set ks i x) k ≡ some b
at_other ks i k x e h ne =
    get_elem?-set_ne ks x (λ t. ne (some-eq (sym e ∙ ap (get_elem? ks) t ∙ h))) ∙ h

module _ {l d : Option ℕ} {ks : List Kind} (i : ℕ) where
  -- A buffer that is written with what has a role, under pointers that leave the others theirs.
  rewrite_slot :
      {l' d' : Option ℕ} (x : Kind)
      → Slots l d ks
      → ((k : ℕ) (a : Kind) → i ≢ k → Role l d k a → Role l' d' k a)
      → Role l' d' i x
      → ((k : ℕ) → l' ≡ some k → get_elem? (set ks i x) k ≡ some load)
      → ((k : ℕ) → d' ≡ some k → get_elem? (set ks i x) k ≡ some drain)
      → Slots l' d' (set ks i x)
  rewrite_slot {l'} {d'} x s f q a b = record {
    two = length-set ks i x ∙ s.two;
    role = all-set (Role l d) (Role l' d') ks i x s.role f q;
    loaded = a;
    drained = b;
  }

-- A free buffer is filled.
pub Slots-load :
    {d : Option ℕ} {ks : List Kind} (i : ℕ)
    → Slots none d ks
    → get_elem? ks i ≡ some free
    → Slots (some i) d (set ks i load)
Slots-load {d} {ks} i s e =
    rewrite_slot i load s widen (is_load refl)
      (λ k h.
        subst (λ k. get_elem? (set ks i load) k ≡ some load) (some-eq h) (at_self ks i load e))
      (λ k h. at_other ks i k load e (s.drained k h) (λ t. cc))
  where
    widen : (k : ℕ) (a : Kind) → i ≢ k → Role none d k a → Role (some i) d k a
    widen k free ne is_free = is_free
    widen k load ne (is_load h) = cc
    widen k drain ne (is_drain h) = is_drain h

-- A buffer that is filled is filled still.
pub Slots-ready :
    {l d : Option ℕ} {ks : List Kind} (i : ℕ)
    → Slots l d ks
    → l ≡ some i
    → Slots l d (set ks i load)
Slots-ready {l} {d} {ks} i s e =
    let here = s.loaded i e in
    rewrite_slot i load s (λ k a ne r. r) (is_load e)
      (λ k h.
        subst (λ k. get_elem? (set ks i load) k ≡ some load) (some-eq (sym e ∙ h))
          (at_self ks i load here))
      (λ k h. at_other ks i k load here (s.drained k h) (λ t. cc))

-- The buffer that is filled is the one to be used up.
pub Slots-drain :
    {l : Option ℕ} {ks : List Kind} (i : ℕ)
    → Slots l none ks
    → get_elem? ks i ≡ some load
    → (l ≡ some i) × Slots none (some i) (set ks i drain)
Slots-drain {l} {ks} i s e =
    let here = Role-load (s.role i load e) in
    (
      here,
      rewrite_slot i drain s (narrow here) (is_drain refl) (λ k h. cc)
          (λ k h.
            subst (λ k. get_elem? (set ks i drain) k ≡ some drain) (some-eq h)
              (at_self ks i drain e)),
    )
  where
    narrow : l ≡ some i → (k : ℕ) (a : Kind) → i ≢ k → Role l none k a → Role none (some i) k a
    narrow here k free ne is_free = is_free
    narrow here k load ne (is_load h) = absurd (ne (some-eq (sym here ∙ h)))
    narrow here k drain ne (is_drain h) = cc

-- The buffer that is used up is given back.
pub Slots-free :
    {l : Option ℕ} {ks : List Kind} (i : ℕ) → Slots l (some i) ks → Slots l none (set ks i free)
Slots-free {l} {ks} i s =
    let here = s.drained i refl in
    rewrite_slot i free s narrow is_free (λ k h. at_other ks i k free here (s.loaded k h) (λ t. cc))
      (λ k h. cc)
  where
    narrow : (k : ℕ) (a : Kind) → i ≢ k → Role l (some i) k a → Role l none k a
    narrow k free ne is_free = is_free
    narrow k load ne (is_load h) = is_load h
    narrow k drain ne (is_drain h) = absurd (ne (some-eq h))

-- The buffer that is used up is taken for another use.
pub Slots-keep :
    {ks : List Kind} (i : ℕ) → Slots none (some i) ks → Slots (some i) none (set ks i load)
Slots-keep {ks} i s =
    let here = s.drained i refl in
    rewrite_slot i load s narrow (is_load refl)
      (λ k h.
        subst (λ k. get_elem? (set ks i load) k ≡ some load) (some-eq h) (at_self ks i load here))
      (λ k h. cc)
  where
    narrow : (k : ℕ) (a : Kind) → i ≢ k → Role none (some i) k a → Role (some i) none k a
    narrow k free ne is_free = is_free
    narrow k load ne (is_load h) = cc
    narrow k drain ne (is_drain h) = absurd (ne (some-eq h))

-- While none is filled, one of the two is free.
pub Slots-free_one :
    {d : Option ℕ} (ks : List Kind) → Slots none d ks → (i : ℕ) × (get_elem? ks i ≡ some free)
Slots-free_one [] s = cc s.two
Slots-free_one (free ∷ ks) s = (0, refl)
Slots-free_one (load ∷ ks) s = cc (Role-load (s.role 0 load refl))
Slots-free_one (drain ∷ []) s = absurd (omega (arith, s.two))
Slots-free_one (drain ∷ free ∷ ks) s = (1, refl)
Slots-free_one (drain ∷ load ∷ ks) s = cc (Role-load (s.role 1 load refl))
Slots-free_one (drain ∷ drain ∷ ks) s =
    let both : 0 ≡ 1 =
      some-eq (sym (Role-drain (s.role 0 drain refl)) ∙ Role-drain (s.role 1 drain refl)) in
    absurd (omega (arith, both))

-- A fresh pair.
pub Slots-two_free : Slots none none (free ∷ free ∷ [])
Slots-two_free = record { two = refl; role = only_free; loaded = λ k e. cc; drained = λ k e. cc }
  where
    only_free : (k : ℕ) (a : Kind) → get_elem? (free ∷ free ∷ []) k ≡ some a → Role none none k a
    only_free zero a e = subst (Role none none 0) (some-eq e) is_free
    only_free (suc zero) a e = subst (Role none none 1) (some-eq e) is_free
    only_free (suc (suc k)) a e = cc
