-- ===== src/Read/Map.antt =====
-- src/read.rs: the socket map as a map from addresses.
use vt_muxer.Common.{
  ℕ, ◌≡◌, refl, sym, ap, ◌∙◌, inl, inr, true, false, none, some, List, [], ◌∷◌, if◌then◌else◌,
  Bool-cases,
}
use vt_muxer.ThinAddr
use vt_muxer.ThinAddr.{SocketAddr}
use vt_muxer.ThinAddr.Order.{socket_eq_iff}
use vt_muxer.Read.Shared.{Source, lookup, forget}

eq_sound : (a b : SocketAddr) → ThinAddr.eq a b ≡ true → a ≡ b
eq_sound a b h = (socket_eq_iff a b).0 h

pub eq_self : (a : SocketAddr) → ThinAddr.eq a a ≡ true
eq_self a = (socket_eq_iff a a).1 refl

module _ (r : Source) where
  pub lookup-forget :
      (m : List (SocketAddr × ℕ)) (a : SocketAddr) → lookup r (forget r m a) a ≡ none
  unfolding lookup forget
  lookup-forget [] a = refl
  lookup-forget ((b, i) ∷ m) a = elim (Bool-cases (ThinAddr.eq a b)) [
    | inl same ↦ rw (same, forget) (lookup-forget m a)
    | inr other ↦ rw (other, lookup) (rw (other, forget) (lookup-forget m a))
  ]

  pub lookup-forget_other :
      (m : List (SocketAddr × ℕ)) (a b : SocketAddr)
      → ThinAddr.eq b a ≡ false
      → lookup r (forget r m a) b ≡ lookup r m b
  unfolding lookup forget
  lookup-forget_other [] a b h = refl
  lookup-forget_other ((c, i) ∷ m) a b h = elim (Bool-cases (ThinAddr.eq a c)) [
    | inl same ↦
        let not_c : ThinAddr.eq b c ≡ false = ap (ThinAddr.eq b) (sym (eq_sound a c same)) ∙ h in
        rw (same, not_c, forget, lookup) (lookup-forget_other m a b h)
    | inr other ↦ rw (other, forget, lookup) (step (lookup-forget_other m a b h))
  ]
    where
      step :
          lookup r (forget r m a) b ≡ lookup r m b
          → (if ThinAddr.eq b c then some i else lookup r (forget r m a) b)
            ≡ (if ThinAddr.eq b c then some i else lookup r m b)
      step e = ap (λ o. if ThinAddr.eq b c then some i else o) e

  pub lookup-cons_same :
      (m : List (SocketAddr × ℕ)) (a : SocketAddr) (i : ℕ) → lookup r ((a, i) ∷ m) a ≡ some i
  unfolding lookup
  lookup-cons_same m a i = rw (eq_self a) refl

  pub lookup-cons_other :
      (m : List (SocketAddr × ℕ)) (a b : SocketAddr) (i : ℕ)
      → ThinAddr.eq b a ≡ false
      → lookup r ((a, i) ∷ m) b ≡ lookup r m b
  unfolding lookup
  lookup-cons_other m a b i h = rw (h) refl
