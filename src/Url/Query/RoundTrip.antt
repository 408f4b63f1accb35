-- ===== src/Url/Query/RoundTrip.antt =====
-- webcc/url.cc: the constructor of `UrlQuery` reads back what `ToString` writes.
use mathlib.Core.Option
use devops_workshop.Url.Codec.{decode}
use devops_workshop.Url.Codec.RoundTrip.{decode-encode_query}
use devops_workshop.Url.Query.{
  Parameter, Parameters, find, has, add, add_pair, with_key, split_key_value, parse_loop, parse,
  pair_text, join_onto, join, to_string,
}
use devops_workshop.Url.Query.Keys.{NodupKeys}
use devops_workshop.Prelude.{
  ℕ, ◌≡◌, ◌≢◌, refl, sym, ap, ◌∙◌, false, some, [], ◌∷◌, ◌++◌, append_assoc, append-nil, arith, All,
  All-append,
}
use devops_workshop.Bytes.{Text, IsByte, Lacks, equal, equal_iff, equal_refl, cut_lem}

-- A parameter that can be written: the key is not empty and lacks both separators, and the value
-- lacks the separator of parameters. All are bytes.
pub record IsWritable (p : Parameter) : Type 0 where
  pub key_ne : p.0 ≢ []
  pub key_eq : Lacks b'=' p.0
  pub key_amp : Lacks b'&' p.0
  pub value_amp : Lacks b'&' p.1
  pub key_bytes : All IsByte p.0
  pub value_bytes : All IsByte p.1

with_key_lem : (key value : Text) → key ≢ [] → with_key (some (key, value)) ≡ some (key, value)
with_key_lem [] value n = absurd (n refl)
with_key_lem (c ∷ k) value n = refl

split_key_value_lem : (p : Parameter) → IsWritable p → split_key_value (pair_text p) ≡ some p
unfolding split_key_value
split_key_value_lem p w = rw (cut_lem b'=' p.0 p.1 w.key_eq) (with_key_lem p.0 p.1 w.key_ne)

-- The loop reads a piece up to the next separator, or up to the end.
parse_loop-piece :
    (kv piece str : Text) (ps : Parameters)
    → Lacks b'&' piece
    → parse_loop kv (piece ++ b'&' ∷ str) ps ≡ parse_loop [] str (add_pair (kv ++ piece) ps)
unfolding parse_loop
parse_loop-piece kv [] str ps h = rw append-nil refl
parse_loop-piece kv (c ∷ piece) str ps h =
    ground (arith, parse_loop-piece (kv ++ c ∷ []) piece str ps h.1, append_assoc kv (c ∷ []) piece)

parse_loop-last :
    (kv piece : Text) (ps : Parameters)
    → Lacks b'&' piece
    → parse_loop kv piece ps ≡ add_pair (kv ++ piece) ps
unfolding parse_loop
parse_loop-last kv [] ps h = rw append-nil refl
parse_loop-last kv (c ∷ piece) ps h =
    ground (arith, parse_loop-last (kv ++ c ∷ []) piece ps h.1, append_assoc kv (c ∷ []) piece)

Lacks-pair_text : (p : Parameter) → IsWritable p → Lacks b'&' (pair_text p)
Lacks-pair_text p w =
    All-append (λ x. x ≢ b'&') p.0 (b'=' ∷ p.1) w.key_amp ((λ e. absurd (omega arith)), w.value_amp)

has-middle :
    (k : Text) (xs : Parameters) (p : Parameter) (ys : Parameters)
    → has k (xs ++ p ∷ ys) ≡ false
    → equal p.0 k ≡ false
unfolding has find
has-middle k [] p ys h = ground arith
has-middle k ((j, w) ∷ xs) p ys h = ground (arith, has-middle k xs p ys)

NodupKeys-middle :
    (xs : Parameters) (p : Parameter) (ys : Parameters)
    → NodupKeys (xs ++ p ∷ ys)
    → has p.0 xs ≡ false
unfolding has find
NodupKeys-middle [] p ys n = refl
NodupKeys-middle ((j, w) ∷ xs) p ys n = ground (
  arith,
  NodupKeys-middle xs p ys n.1,
  has-middle j xs p ys n.0,
  equal_iff j p.0,
  equal_iff p.0 j,
  equal_refl j,
)

add_pair-new :
    (p : Parameter) (ps : Parameters)
    → IsWritable p
    → has p.0 ps ≡ false
    → add_pair (pair_text p) ps ≡ ps ++ p ∷ []
unfolding add_pair
add_pair-new p ps w h = rw (split_key_value_lem p w) (add-new p ps h)
  where
    add-new : (q : Parameter) (qs : Parameters) → has q.0 qs ≡ false → add q.0 q.1 qs ≡ qs ++ q ∷ []
    add-new q qs e = unfold add in rw e refl

abbrev tail_text : Parameters → Text
tail_text [] = []
tail_text (p ∷ ps) = b'&' ∷ (pair_text p ++ tail_text ps)

join_onto-tail_text : (str : Text) (ps : Parameters) → join_onto str ps ≡ str ++ tail_text ps
unfolding join_onto
join_onto-tail_text str [] = sym (append-nil str)
join_onto-tail_text str (p ∷ ps) =
    join_onto-tail_text (str ++ b'&' ∷ pair_text p) ps
    ∙ append_assoc str (b'&' ∷ pair_text p) (tail_text ps)

parse_loop-tail_text :
    (done : Parameters) (p : Parameter) (ps : Parameters)
    → All IsWritable (p ∷ ps)
    → NodupKeys (done ++ p ∷ ps)
    → parse_loop [] (pair_text p ++ tail_text ps) done ≡ done ++ p ∷ ps
parse_loop-tail_text done p [] w n = rw append-nil (
    parse_loop-last [] (pair_text p) done (Lacks-pair_text p w.0)
    ∙ add_pair-new p done w.0 (NodupKeys-middle done p [] n))
parse_loop-tail_text done p (q ∷ ps) w n =
    parse_loop-piece [] (pair_text p) (pair_text q ++ tail_text ps) done (Lacks-pair_text p w.0)
    ∙ rw (add_pair-new p done w.0 (NodupKeys-middle done p (q ∷ ps) n)) (
        parse_loop-tail_text (done ++ p ∷ []) q ps w.1 (rw (append_assoc done (p ∷ []) (q ∷ ps)) n)
        ∙ append_assoc done (p ∷ []) (q ∷ ps))

parse-cons : (str : Text) → str ≢ [] → parse str ≡ parse_loop [] str []
unfolding parse
parse-cons [] n = absurd (n refl)
parse-cons (c ∷ str) n = refl

append-ne-nil : (xs ys : Text) (c : ℕ) → xs ++ c ∷ ys ≢ []
append-ne-nil [] ys c e = cc
append-ne-nil (x ∷ xs) ys c e = cc

pub parse-join : (ps : Parameters) → All IsWritable ps → NodupKeys ps → parse (join ps) ≡ ps
unfolding join
parse-join [] w n = unfold parse in refl
parse-join (p ∷ ps) w n = rw (join_onto-tail_text (pair_text p) ps) (
    parse-cons _ (λ e.
      append-ne-nil p.0 (p.1 ++ tail_text ps) b'='
        (sym (append_assoc p.0 (b'=' ∷ p.1) (tail_text ps)) ∙ e))
    ∙ parse_loop-tail_text [] p ps w n)

IsByte-pair_text : (p : Parameter) → IsWritable p → All IsByte (pair_text p)
IsByte-pair_text p w = All-append IsByte p.0 (b'=' ∷ p.1) w.key_bytes (omega arith, w.value_bytes)

IsByte-tail_text : (ps : Parameters) → All IsWritable ps → All IsByte (tail_text ps)
IsByte-tail_text [] w = tt
IsByte-tail_text (p ∷ ps) w = (
  omega arith,
  All-append IsByte (pair_text p) (tail_text ps) (IsByte-pair_text p w.0) (IsByte-tail_text ps w.1),
)

IsByte-join : (ps : Parameters) → All IsWritable ps → All IsByte (join ps)
unfolding join
IsByte-join [] w = tt
IsByte-join (p ∷ ps) w = rw (join_onto-tail_text (pair_text p) ps) (
    All-append IsByte (pair_text p) (tail_text ps) (IsByte-pair_text p w.0)
      (IsByte-tail_text ps w.1))

-- Parameters come back unchanged, in order, when the string that `ToString` gives is decoded and
-- parsed. They are of bytes, no key stands twice, is empty or holds an equals sign or an ampersand,
-- and no value holds an ampersand.
pub parse-decode-to_string :
    (ps : Parameters)
    → All IsWritable ps
    → NodupKeys ps
    → Option.map parse (decode (to_string ps)) ≡ some ps
unfolding to_string
parse-decode-to_string ps w n =
    rw (decode-encode_query (join ps) (IsByte-join ps w)) (ap some (parse-join ps w n))
