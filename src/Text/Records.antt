-- ===== src/Text/Records.antt =====
-- Newline-framed payloads: each record is followed by the byte `sep` of pushers/processor.go.
use edgedelta_lambda_extensi.Common.{
  ℕ, ◌≡◌, ◌≢◌, refl, Bool, true, false, List, [], ◌∷◌, ◌++◌, append_assoc, append-nil, arith, ◌==◌,
  All,
}
use edgedelta_lambda_extensi.Text.Bytes.{Bytes}

-- `const sep = '\n'`
abbrev pub sep : ℕ
sep = 10

abbrev pub Lacks : ℕ → Bytes → Type 0
Lacks b = All (λ c. c ≢ b)

-- Records, each with a separator behind it.
unfoldable pub frame : List Bytes → Bytes
frame [] = []
frame (r ∷ rs) = r ++ sep ∷ frame rs

-- A last record with no separator behind it counts as one.
last_record : Bytes → List Bytes
last_record [] = []
last_record (c ∷ cur) = (c ∷ cur) ∷ []

-- The records of a payload; `cur` is what has been read of the current one.
records_from : Bytes → Bytes → List Bytes
records_from cur [] = last_record cur
records_from cur (c ∷ s) = elim (c == sep) [
  | true ↦ cur ∷ records_from [] s
  | false ↦ records_from (cur ++ c ∷ []) s
]

unfoldable pub records : Bytes → List Bytes
unfolding records_from last_record
records s = records_from [] s

-- Whether a text is empty or ends behind a separator; `fresh` says so of what stands before it.
unfoldable pub framed_from : Bool → Bytes → Bool
framed_from fresh [] = fresh
framed_from fresh (c ∷ s) = framed_from (c == sep) s

abbrev pub IsFramed : Bytes → Type 0
IsFramed s = framed_from true s ≡ true

pub framed_from-append :
    (b : Bool) (s t : Bytes) → framed_from b (s ++ t) ≡ framed_from (framed_from b s) t
unfolding framed_from
framed_from-append b [] t = refl
framed_from-append b (c ∷ s) t = framed_from-append (c == sep) s t

pub IsFramed-append : (s t : Bytes) → IsFramed s → IsFramed t → IsFramed (s ++ t)
IsFramed-append s t hs ht = rw (framed_from-append true s t, hs) ht

-- What stands behind a framed text decides whether the whole is framed.
pub IsFramed-suffix : (s t : Bytes) → IsFramed s → IsFramed (s ++ t) → IsFramed t
IsFramed-suffix s t hs h = rw (framed_from-append true s t, hs) at h

abbrev is_empty : Bytes → Bool
is_empty [] = true
is_empty (c ∷ s) = false

is_empty-snoc : (s : Bytes) (c : ℕ) → is_empty (s ++ c ∷ []) ≡ false
is_empty-snoc [] c = refl
is_empty-snoc (d ∷ s) c = refl

records_from-append :
    (cur a b : Bytes)
    → framed_from (is_empty cur) a ≡ true
    → records_from cur (a ++ b) ≡ records_from cur a ++ records_from [] b
unfolding records_from last_record framed_from
records_from-append [] [] b h = refl
records_from-append (c ∷ cur) [] b h = cc
records_from-append cur (c ∷ a) b h = ground (
  arith,
  records_from-append [] a b,
  records_from-append (cur ++ c ∷ []) a b,
  is_empty-snoc cur c,
)

-- The records of a framed text come before those of what follows it.
pub records-append : (a b : Bytes) → IsFramed a → records (a ++ b) ≡ records a ++ records b
unfolding records
records-append a b h = records_from-append [] a b h

records_from-record :
    (cur r s : Bytes)
    → Lacks sep r
    → records_from cur (r ++ sep ∷ s) ≡ (cur ++ r) ∷ records_from [] s
unfolding records_from
records_from-record cur [] s h = rw append-nil
records_from-record cur (c ∷ r) s (hc, h) =
    ground (arith, records_from-record (cur ++ c ∷ []) r s h, append_assoc cur (c ∷ []) r)

-- Reading the frame of records that hold no separator gives those records.
pub records-frame : (rs : List Bytes) → All (Lacks sep) rs → records (frame rs) ≡ rs
unfolding records frame
records-frame [] h = refl
records-frame (r ∷ rs) (hr, hrs) =
    rw (records_from-record [] r (frame rs) hr) (λ i. r ∷ records-frame rs hrs i)

framed_from-record : (b : Bool) (r s : Bytes) → framed_from b (r ++ sep ∷ s) ≡ framed_from true s
unfolding framed_from
framed_from-record b [] s = refl
framed_from-record b (c ∷ r) s = framed_from-record (c == sep) r s

pub frame-IsFramed : (rs : List Bytes) → IsFramed (frame rs)
unfolding frame
frame-IsFramed [] = unfold framed_from in refl
frame-IsFramed (r ∷ rs) = rw framed_from-record (frame-IsFramed rs)
