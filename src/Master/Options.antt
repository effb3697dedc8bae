-- ===== src/Master/Options.antt =====
-- The options of a handle.
use libmbus.Base.{
  ℕ, zero, suc, ◌+◌, ℤ, pos, negsuc, minus_one, ◌≤◌, ◌≡◌, ◌≢◌, ◌⊎◌, inl, inr, refl, arith, leb,
  Bool-cases, leb→le,
}
use libmbus.Master.Handle.{
  Handle, Purge, purge_none, purge_m2s, purge_s2m, ContextOption, max_data_retry_option,
  max_search_retry_option, purge_first_frame_option, context_set_option, set_retry, set_purge,
}

-- The numbers of tries are small.
pub record IsHandle (h : Handle) : Type 0 where
  pub data_retry_fits : h.max_data_retry ≤ 9
  pub search_retry_fits : h.max_search_retry ≤ 9

-- The largest value of an option.
abbrev pub limit : ContextOption → ℕ
limit max_data_retry_option = 9
limit max_search_retry_option = 9
limit purge_first_frame_option = 2

-- The numbers of `MBUS_FRAME_PURGE_*`.
abbrev pub purge_number : Purge → ℕ
purge_number purge_none = 0
purge_number purge_m2s = 1
purge_number purge_s2m = 2

-- The number that a handle has for an option.
abbrev pub get_option : Handle → ContextOption → ℕ
get_option h max_data_retry_option = h.max_data_retry
get_option h max_search_retry_option = h.max_search_retry
get_option h purge_first_frame_option = purge_number h.purge_first_frame

-- The two handles differ in no other option.
pub record Others (o : ContextOption) (h next : Handle) : Type 0 where
  pub same : (other : ContextOption) → o ≢ other → get_option next other ≡ get_option h other
  pub found_event : next.has_found_event ≡ h.has_found_event

-- The value was accepted and is stored, or it is out of range and the handle is as it was.
abbrev pub Outcomes : Handle → ContextOption → ℤ → ℤ × Handle → Type 0
Outcomes h o (negsuc n) r = (r.0 ≡ minus_one) × (r.1 ≡ h)
Outcomes h o (pos n) r =
    ((n ≤ limit o) × (r.0 ≡ pos 0) × ((get_option r.1 o ≡ n) × Others o h r.1))
    ⊎ ((limit o + 1 ≤ n) × (r.0 ≡ minus_one) × (r.1 ≡ h))

set_retry-cases :
    (n : ℕ) (store : ℕ → Handle) (h : Handle)
    → ((n ≤ 9) × (set_retry (pos n) store h ≡ (pos 0, store n)))
      ⊎ ((10 ≤ n) × (set_retry (pos n) store h ≡ (minus_one, h)))
unfolding set_retry
set_retry-cases n store h = elim (Bool-cases (leb n 9)) [
  | inl e ↦ inl (leb→le n 9 e, rw e refl)
  | inr e ↦ inr (ground arith, rw e refl)
]

-- Storing a number of tries, for an option of which `stored` says that it was stored.
set_retry-Outcomes :
    (n : ℕ) (store : ℕ → Handle) (h : Handle) (stored : ℕ → Handle → Type 0)
    → IsHandle h
    → (n ≤ 9 → IsHandle (store n))
    → stored n (store n)
    → let r = set_retry (pos n) store h in
      IsHandle r.1
      × (((n ≤ 9) × (r.0 ≡ pos 0) × stored n r.1) ⊎ ((10 ≤ n) × (r.0 ≡ minus_one) × (r.1 ≡ h)))
set_retry-Outcomes n store h stored v small s = elim (set_retry-cases n store h) [
  | inl (fits, e) ↦ rw e (small fits, inl (fits, refl, s))
  | inr (over, e) ↦ rw e (v, inr (over, refl, refl))
]

-- What the handle has after storing a number, an option at a time.
max_data_retry-Others :
    (h : Handle) (n : ℕ) → Others max_data_retry_option h record h { max_data_retry = n }
max_data_retry-Others h n = record { same = go; found_event = refl }
  where
    go :
        (other : ContextOption)
        → max_data_retry_option ≢ other
        → get_option record h { max_data_retry = n } other ≡ get_option h other
    go max_data_retry_option d = absurd (d refl)
    go max_search_retry_option d = refl
    go purge_first_frame_option d = refl

max_search_retry-Others :
    (h : Handle) (n : ℕ) → Others max_search_retry_option h record h { max_search_retry = n }
max_search_retry-Others h n = record { same = go; found_event = refl }
  where
    go :
        (other : ContextOption)
        → max_search_retry_option ≢ other
        → get_option record h { max_search_retry = n } other ≡ get_option h other
    go max_data_retry_option d = refl
    go max_search_retry_option d = absurd (d refl)
    go purge_first_frame_option d = refl

purge_first_frame-Others :
    (h : Handle) (p : Purge) → Others purge_first_frame_option h record h { purge_first_frame = p }
purge_first_frame-Others h p = record { same = go; found_event = refl }
  where
    go :
        (other : ContextOption)
        → purge_first_frame_option ≢ other
        → get_option record h { purge_first_frame = p } other ≡ get_option h other
    go max_data_retry_option d = refl
    go max_search_retry_option d = refl
    go purge_first_frame_option d = absurd (d refl)

-- `mbus_context_set_option` returns 0 exactly for the values from 0 to 9 of the two numbers of tries and
-- for the three kinds of purging; then the option has the value, and no other option has changed.
-- For every other value it returns -1 and leaves the handle as it was. The numbers of tries stay
-- between 0 and 9.
pub context_set_option-IsHandle :
    (h : Handle) (o : ContextOption) (value : ℤ)
    → IsHandle h
    → IsHandle (context_set_option h o value).1 × Outcomes h o value (context_set_option h o value)
unfolding context_set_option set_purge set_retry
context_set_option-IsHandle h max_data_retry_option (pos n) v =
    set_retry-Outcomes n (λ n. record h { max_data_retry = n }) h
      (λ n next. (next.max_data_retry ≡ n) × Others max_data_retry_option h next) v
      (λ fits. record { data_retry_fits = fits; search_retry_fits = v.search_retry_fits })
      (refl, max_data_retry-Others h n)
context_set_option-IsHandle h max_data_retry_option (negsuc n) v = (v, (refl, refl))
context_set_option-IsHandle h max_search_retry_option (pos n) v =
    set_retry-Outcomes n (λ n. record h { max_search_retry = n }) h
      (λ n next. (next.max_search_retry ≡ n) × Others max_search_retry_option h next) v
      (λ fits. record { data_retry_fits = v.data_retry_fits; search_retry_fits = fits })
      (refl, max_search_retry-Others h n)
context_set_option-IsHandle h max_search_retry_option (negsuc n) v = (v, (refl, refl))
context_set_option-IsHandle h purge_first_frame_option (negsuc n) v = (v, (refl, refl))
context_set_option-IsHandle h purge_first_frame_option (pos zero) v = (
  record { data_retry_fits = v.data_retry_fits; search_retry_fits = v.search_retry_fits },
  inl (omega arith, refl, (refl, purge_first_frame-Others h purge_none)),
)
context_set_option-IsHandle h purge_first_frame_option (pos (suc zero)) v = (
  record { data_retry_fits = v.data_retry_fits; search_retry_fits = v.search_retry_fits },
  inl (omega arith, refl, (refl, purge_first_frame-Others h purge_m2s)),
)
context_set_option-IsHandle h purge_first_frame_option (pos (suc (suc zero))) v = (
  record { data_retry_fits = v.data_retry_fits; search_retry_fits = v.search_retry_fits },
  inl (omega arith, refl, (refl, purge_first_frame-Others h purge_s2m)),
)
context_set_option-IsHandle h purge_first_frame_option (pos (suc (suc (suc n)))) v =
    (v, inr (omega arith, refl, refl))
