-- ===== src/Dhcp/Server/Search.antt =====
-- The search list (internal/dhcp/server.go), as a client decodes it: by the same rules that
-- `decodeDNSName` (internal/dhcp/message.go) applies to a client's name.
use dns_desktop.Common.{
  sym, append-nil, Bool, true, zero, suc, All, ℕ, ◌+◌, ◌/◌, ◌%◌, ◌≤◌, ◌<◌, ◌≡◌, refl, ap, ◌∙◌,
  false, not, ◌||◌, List, [], ◌∷◌, ◌++◌, append_assoc, Bytes, length, null, arith, ◌==◌, ℕ_eq, ltb,
  if◌then◌else◌, length-append, take-append_length, Bool-cases, inl, inr,
}
use dns_desktop.Dhcp.Message.Names.{dns_name_after, decode_dns_name}
use dns_desktop.Dhcp.Server.Fill.{
  split_at_dot, labels_loop, encode_labels, encode_search_list, split_labels,
}

-- The labels that the encoding has room for: those of 1 to 63 bytes.
abbrev pub that_fit : List Bytes → List Bytes
that_fit [] = []
that_fit (label ∷ labels) =
    let rest = that_fit labels in if null label || ltb 63 (length label) then rest else label ∷ rest

-- Labels joined by dots, and behind a text.
abbrev pub joined : List Bytes → Bytes
joined [] = []
joined (label ∷ []) = label
joined (label ∷ next ∷ labels) = label ++ (b'.' ∷ joined (next ∷ labels))

abbrev pub dotted : Bytes → List Bytes → Bytes
dotted sb [] = sb
dotted sb (label ∷ labels) = dotted ((if null sb then sb else sb ++ (b'.' ∷ [])) ++ label) labels

-- A label that is passed over.
dns_name_after-skip :
    (label rest sb : Bytes)
    → dns_name_after (length label) (label ++ rest) sb ≡ dns_name_after 0 rest sb
unfolding dns_name_after
dns_name_after-skip [] rest sb = refl
dns_name_after-skip (c ∷ label) rest sb = dns_name_after-skip label rest sb

fits_test :
    (label rest : Bytes)
    → (null label || ltb 63 (length label)) ≡ false
    → ((length label == 0) ≡ false)
      × ((not (length label / 64 % 4 == 0) || ltb (length (label ++ rest)) (length label)) ≡ false)
fits_test label rest h =
    numbers (length label) (length rest) (length (label ++ rest)) (null_test label h) (ground arith)
      (length-append label rest)
  where
    null_test : (label : Bytes) → (null label || ltb 63 (length label)) ≡ false → 0 < length label
    null_test [] h = absurd (ground arith)
    null_test (c ∷ label) h = omega arith

    numbers :
        (n r t : ℕ)
        → 0 < n
        → n ≤ 63
        → t ≡ n + r
        → ((n == 0) ≡ false) × ((not (n / 64 % 4 == 0) || ltb t n) ≡ false)
    numbers n r t positive small sum = ground arith

dns_name_after-label :
    (label rest sb : Bytes)
    → (null label || ltb 63 (length label)) ≡ false
    → dns_name_after 0 (length label ∷ label ++ rest) sb
      ≡ dns_name_after 0 rest ((if null sb then sb else sb ++ (b'.' ∷ [])) ++ label)
unfolding dns_name_after
dns_name_after-label label rest sb h =
    let (there, short) = fits_test label rest h in
    rw (there, short, take-append_length label rest)
      (dns_name_after-skip label rest ((if null sb then sb else sb ++ (b'.' ∷ [])) ++ label))

dns_name_after-end : (rest sb : Bytes) → dns_name_after 0 (0 ∷ rest) sb ≡ sb
unfolding dns_name_after
dns_name_after-end rest sb = refl

dns_name_after-encode_labels :
    (labels : List Bytes) (rest sb : Bytes)
    → dns_name_after 0 (encode_labels labels ++ rest) sb ≡ dotted sb (that_fit labels)
unfolding encode_labels
dns_name_after-encode_labels [] rest sb = dns_name_after-end rest sb
dns_name_after-encode_labels (label ∷ labels) rest sb =
    elim (Bool-cases (null label || ltb 63 (length label))) [
      | inl unfit ↦ rw unfit (dns_name_after-encode_labels labels rest sb)
      | inr fits ↦ rw fits (
          ap (λ b. dns_name_after 0 (length label ∷ b) sb)
            (append_assoc label (encode_labels labels) rest)
          ∙ (dns_name_after-label label (encode_labels labels ++ rest) sb fits
              ∙ dns_name_after-encode_labels labels rest
                  ((if null sb then sb else sb ++ (b'.' ∷ [])) ++ label)))
    ]

-- A label of a name has no dot.
abbrev pub IsLabel : Bytes → Type 0
IsLabel label = All (λ c. (c == b'.') ≡ false) label

split_at_dot-last : (label : Bytes) → IsLabel label → split_at_dot label ≡ (label, [])
unfolding split_at_dot
split_at_dot-last [] h = refl
split_at_dot-last (c ∷ label) (other, h) = rw (other, split_at_dot-last label h) refl

split_at_dot-more :
    (label rest : Bytes) → IsLabel label → split_at_dot (label ++ (b'.' ∷ rest)) ≡ (label, rest)
unfolding split_at_dot
split_at_dot-more [] rest h = refl
split_at_dot-more (c ∷ label) rest (other, h) = rw (other, split_at_dot-more label rest h) refl

fit_first :
    (label : Bytes) (xs ys : List Bytes)
    → that_fit xs ≡ that_fit ys
    → that_fit (label ∷ xs) ≡ that_fit (label ∷ ys)
fit_first label xs ys h = rw h refl

labels_loop-empty : (fuel : ℕ) → labels_loop fuel [] ≡ []
unfolding labels_loop
labels_loop-empty zero = refl
labels_loop-empty (suc fuel) = refl

null-append : (xs : Bytes) (c : ℕ) (ys : Bytes) → null (xs ++ (c ∷ ys)) ≡ false
null-append [] c ys = refl
null-append (x ∷ xs) c ys = refl

length-behind : (xs : Bytes) (c : ℕ) (ys : Bytes) → length ys < length (xs ++ (c ∷ ys))
length-behind xs c ys = by_sum (length-append xs (c ∷ ys))
  where
    by_sum :
        length (xs ++ (c ∷ ys)) ≡ length xs + suc (length ys) → length ys < length (xs ++ (c ∷ ys))
    by_sum e = omega arith

-- The loop finds the labels of a name again, but for an empty one at its end.
labels_loop-joined :
    (fuel : ℕ) (labels : List Bytes)
    → All IsLabel labels
    → length (joined labels) ≤ fuel
    → that_fit (labels_loop fuel (joined labels)) ≡ that_fit labels
unfolding labels_loop
labels_loop-joined fuel [] h enough = rw (labels_loop-empty fuel) refl
labels_loop-joined fuel ([] ∷ []) h enough = rw (labels_loop-empty fuel) refl
labels_loop-joined zero ((c ∷ label) ∷ []) h enough = absurd (omega arith)
labels_loop-joined (suc fuel) ((c ∷ label) ∷ []) (h, hs) enough =
    rw (split_at_dot-last (c ∷ label) h, labels_loop-empty fuel) refl
labels_loop-joined zero (label ∷ next ∷ labels) (h, hs) enough =
    let short = length-behind label b'.' (joined (next ∷ labels)) in absurd (omega arith)
labels_loop-joined (suc fuel) (label ∷ next ∷ labels) (h, hs) enough =
    let short = length-behind label b'.' (joined (next ∷ labels)) in
    rw
      (
        null-append label b'.' (joined (next ∷ labels)),
        split_at_dot-more label (joined (next ∷ labels)) h,
      )
      (fit_first label (labels_loop fuel (joined (next ∷ labels))) (next ∷ labels)
        (labels_loop-joined fuel (next ∷ labels) hs (omega arith)))

split_labels-joined :
    (labels : List Bytes)
    → All IsLabel labels
    → that_fit (split_labels (joined labels)) ≡ that_fit labels
unfolding split_labels
split_labels-joined labels h = labels_loop-joined (length (joined labels)) labels h (omega arith)

-- Behind a text that is not empty, every label gets a dot.
abbrev behind : List Bytes → Bytes
behind [] = []
behind (label ∷ labels) = b'.' ∷ (label ++ behind labels)

dotted-behind :
    (c : ℕ) (sb : Bytes) (labels : List Bytes) → dotted (c ∷ sb) labels ≡ c ∷ (sb ++ behind labels)
dotted-behind c sb [] = ap (λ x. c ∷ x) (sym (append-nil sb))
dotted-behind c sb (label ∷ labels) =
    dotted-behind c (sb ++ (b'.' ∷ []) ++ label) labels
    ∙ ap (λ x. c ∷ x)
        (append_assoc (sb ++ (b'.' ∷ [])) label (behind labels)
          ∙ append_assoc sb (b'.' ∷ []) (label ++ behind labels))

joined-behind :
    (label : Bytes) (labels : List Bytes) → label ++ behind labels ≡ joined (label ∷ labels)
joined-behind label [] = append-nil label
joined-behind label (next ∷ labels) = ap (λ x. label ++ (b'.' ∷ x)) (joined-behind next labels)

dotted-that_fit : (labels : List Bytes) → dotted [] (that_fit labels) ≡ joined (that_fit labels)
dotted-that_fit [] = refl
dotted-that_fit ([] ∷ labels) = dotted-that_fit labels
dotted-that_fit ((c ∷ label) ∷ labels) =
    by_size (ltb 63 (length (c ∷ label))) (dotted-that_fit labels)
  where
    by_size :
        (b : Bool)
        → dotted [] (that_fit labels) ≡ joined (that_fit labels)
        → dotted [] (if b then that_fit labels else (c ∷ label) ∷ that_fit labels)
          ≡ joined (if b then that_fit labels else (c ∷ label) ∷ that_fit labels)
    by_size true h = h
    by_size false h =
        dotted-behind c label (that_fit labels) ∙ joined-behind (c ∷ label) (that_fit labels)

-- A client that decodes the encoding of a search list by the rules of `decodeDNSName` reads the first
-- name of the list and none of the others: of the labels that the name has between its dots, those of 1
-- to 63 bytes, joined by dots.
pub decode_dns_name-encode_search_list :
    (labels names : List Bytes)
    → All IsLabel labels
    → decode_dns_name (encode_search_list (joined labels ∷ names)) ≡ joined (that_fit labels)
unfolding decode_dns_name encode_search_list
decode_dns_name-encode_search_list labels names h =
    dns_name_after-encode_labels (split_labels (joined labels)) (encode_search_list names) []
    ∙ ap (dotted []) (split_labels-joined labels h)
    ∙ dotted-that_fit labels
