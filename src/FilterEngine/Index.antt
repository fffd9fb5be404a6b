-- ===== src/FilterEngine/Index.antt =====
-- `ensure_code_extra_index` of trace_filter/engine.rs, called by several threads: a load, a request
-- to CPython, which gives a number or fails, and a compare-and-exchange that publishes the number
-- unless another is published already. Each of these is one step.
use codetracer_python_record.Prelude.{
  ℕ, Option, none, some, ◌≡◌, refl, if◌then◌else◌, ◌==◌, Bool-cases, inl, inr, subst,
}

pub data Phase : Type 0 where
  idle : Phase
  requested : ℕ → Phase
  answered : Option ℕ → Phase

pub record Shared : Type 0 where
  pub published : Option ℕ
  pub phase : ℕ → Phase

abbrev pub set_phase : ℕ → Phase → (ℕ → Phase) → ℕ → Phase
set_phase thread p phase k = if thread == k then p else phase k

-- The phase behind the load: the index that is published, or the one that CPython answers.
unfoldable pub load : Option ℕ → Option ℕ → Phase
load (some index) request = answered (some index)
load none none = answered none
load none (some new_index) = requested new_index

-- `compare_exchange` from the unset value, and the index that is answered: the published one.
unfoldable pub exchange : Option ℕ → ℕ → Option ℕ
exchange none new_index = some new_index
exchange (some observed) new_index = some observed

pub data Step : Shared → Shared → Type 0 where
  loads :
      (s : Shared) (thread : ℕ) (request : Option ℕ)
      → s.phase thread ≡ idle
      → Step s (record s { phase = set_phase thread (load s.published request) s.phase })
  exchanges :
      (s : Shared) (thread new_index : ℕ)
      → s.phase thread ≡ requested new_index
      → Step s (record {
        published = exchange s.published new_index;
        phase = set_phase thread (answered (exchange s.published new_index)) s.phase;
      })

pub data Reach (s : Shared) : Shared → Type 0 where
  here : Reach s s
  next : {t u : Shared} → Reach s t → Step t u → Reach s u

abbrev pub start : Shared
start = record { published = none; phase = λ thread. idle }

-- An index that a thread was answered is the published one.
abbrev Agrees : Option ℕ → Phase → Type 0
Agrees published idle = Unit
Agrees published (requested n) = Unit
Agrees published (answered none) = Unit
Agrees published (answered (some i)) = published ≡ some i

load-Agrees : (published request : Option ℕ) → Agrees published (load published request)
unfolding load
load-Agrees (some index) request = refl
load-Agrees none none = tt
load-Agrees none (some n) = tt

exchange-Agrees :
    (published : Option ℕ) (n : ℕ) → Agrees (exchange published n) (answered (exchange published n))
unfolding exchange
exchange-Agrees none n = refl
exchange-Agrees (some o) n = refl

keep-Agrees :
    (published : Option ℕ) (n : ℕ) (p : Phase)
    → Agrees published p
    → Agrees (exchange published n) p
unfolding exchange
keep-Agrees published n idle h = tt
keep-Agrees published n (requested m) h = tt
keep-Agrees published n (answered none) h = tt
keep-Agrees none n (answered (some i)) h = cc
keep-Agrees (some o) n (answered (some i)) h = h

set-Agrees :
    (published : Option ℕ) (thread k : ℕ) (p : Phase) (phase : ℕ → Phase)
    → Agrees published p
    → Agrees published (phase k)
    → Agrees published (set_phase thread p phase k)
set-Agrees published thread k p phase h g = elim (Bool-cases (thread == k)) [
  | inl e ↦ rw e h
  | inr e ↦ rw e g
]

Step-Agrees :
    {s t : Shared}
    → Step s t
    → ((k : ℕ) → Agrees s.published (s.phase k))
    → (k : ℕ) → Agrees t.published (t.phase k)
Step-Agrees (loads s thread request idle_now) all k =
    set-Agrees s.published thread k (load s.published request) s.phase
      (load-Agrees s.published request) (all k)
Step-Agrees (exchanges s thread n waiting) all k =
    set-Agrees (exchange s.published n) thread k (answered (exchange s.published n)) s.phase
      (exchange-Agrees s.published n) (keep-Agrees s.published n (s.phase k) (all k))

Reach-Agrees : {t : Shared} → Reach start t → (k : ℕ) → Agrees t.published (t.phase k)
Reach-Agrees here k = tt
Reach-Agrees (next r s) k = Step-Agrees s (Reach-Agrees r) k

-- However the loads, requests and exchanges of several threads interleave, all threads that are
-- answered an index are answered the same one.
pub Reach-same_index :
    {t : Shared} (a b i j : ℕ)
    → Reach start t
    → t.phase a ≡ answered (some i)
    → t.phase b ≡ answered (some j)
    → i ≡ j
Reach-same_index {t} a b i j r ha hb =
    let ka : Agrees t.published (answered (some i)) =
      subst (Agrees t.published) ha (Reach-Agrees r a) in
    let kb : Agrees t.published (answered (some j)) =
      subst (Agrees t.published) hb (Reach-Agrees r b) in
    cc (ka, kb)
