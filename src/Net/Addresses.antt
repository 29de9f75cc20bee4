-- ===== src/Net/Addresses.antt =====
-- Which address `each_addr` of src/net/mod.rs comes to.
use coio_rs.Base.{◌≡◌, refl, sym, ap, ◌∙◌, Option, none, some, List, [], ◌∷◌, map, head?, get_last?}
use coio_rs.Net.{Error, invalid_input, Result, ok, err, try_each, each_addr}

-- The successes and the errors among results.
abbrev pub successes : {T : Type 0} → List (Result T) → List T
successes [] = []
successes (ok t ∷ rs) = t ∷ successes rs
successes (err e ∷ rs) = successes rs

abbrev pub errors : {T : Type 0} → List (Result T) → List Error
errors [] = []
errors (ok t ∷ rs) = errors rs
errors (err e ∷ rs) = e ∷ errors rs

-- The first success, or else the last error, or else that there is no address.
abbrev pub best_of : {T : Type 0} → Option T → Option Error → Result T
best_of (some t) last_err = ok t
best_of none (some e) = err e
best_of none none = err invalid_input

-- The last error, if there was one before.
abbrev last_error : Option Error → Option Error → Option Error
last_error before none = before
last_error before (some e) = some e

get_last?-cons :
    (e : Error) (es : List Error) (before : Option Error)
    → last_error before (get_last? (e ∷ es)) ≡ last_error (some e) (get_last? es)
get_last?-cons e [] before = refl
get_last?-cons e (d ∷ []) before = refl
get_last?-cons e (d ∷ (c ∷ es)) before =
    get_last?-cons d (c ∷ es) before ∙ sym (get_last?-cons d (c ∷ es) (some e))

-- One more result in front.
best_of-cons :
    {T : Type 0} (r : Result T) (rs : List (Result T)) (next : Error → Result T)
    (before : Option Error)
    → ((e : Error)
        → next e ≡ best_of (head? (successes rs)) (last_error (some e) (get_last? (errors rs))))
    → elim r [ ok t ↦ ok t | err e ↦ next e ]
      ≡ best_of (head? (successes (r ∷ rs))) (last_error before (get_last? (errors (r ∷ rs))))
best_of-cons (ok t) rs next before h = refl
best_of-cons (err e) rs next before h =
    h e ∙ ap (best_of (head? (successes rs))) (sym (get_last?-cons e (errors rs) before))

try_each-best_of :
    {Addr T : Type 0} (f : Addr → Result T) (addrs : List Addr) (last_err : Option Error)
    → try_each f addrs last_err
      ≡ best_of
          (head? (successes (map f addrs)))
          (last_error last_err (get_last? (errors (map f addrs))))
unfolding try_each
try_each-best_of f [] none = refl
try_each-best_of f [] (some e) = refl
try_each-best_of f (addr ∷ addrs) last_err =
    best_of-cons (f addr) (map f addrs) (λ e. try_each f addrs (some e)) last_err
      (λ e. try_each-best_of f addrs (some e))

-- each_addr gives the first success that the function has on the addresses in order; if there is
-- none the error of the last address, and InvalidInput if there is no address; and an error of the
-- resolution is passed on.
pub each_addr-best_of :
    {Addr T : Type 0} (f : Addr → Result T) (addrs : List Addr) (e : Error)
    → (each_addr (ok addrs) f
        ≡ best_of (head? (successes (map f addrs))) (get_last? (errors (map f addrs))))
      × (each_addr (err e) f ≡ err e)
unfolding each_addr
each_addr-best_of f addrs e = (
  try_each-best_of f addrs none
      ∙ ap (best_of (head? (successes (map f addrs))))
          (last_error-none (get_last? (errors (map f addrs)))),
  refl,
)
  where
    last_error-none : (o : Option Error) → last_error none o ≡ o
    last_error-none none = refl
    last_error-none (some e) = refl
