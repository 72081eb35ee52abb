-- ===== src/Devices/Listing.antt =====
-- Which names `raw_socket_list_devices` of src/c/raw_socket.c lists.
use mathlib.Core.List.{Memᴰ}
use my_wireshark.Base.{
  ℕ, min, ◌≤◌, ◌<◌, ◌≡◌, refl, sym, ap, ap₂, ◌∙◌, subst, ◌⊎◌, inl, inr, Bool, true, false, List, [],
  ◌∷◌, ◌++◌, map, Option, none, some, arith, ltb, ltb→lt, ltb→le, ◌==◌, if◌then◌else◌, length,
  length-append, All, if_elim,
}
use my_wireshark.Devices.Members.{
  All-intro, All-elim, Mem-snoc, Mem-snoc_last, Mem-snoc_front, IsDistinct, IsDistinct-snoc, Found,
  is_listed-Found, take-short,
}
use my_wireshark.Devices.{
  raw_socket_name_len, copied_name, is_listed, add_device, list_loop, raw_socket_list_devices,
  capture_max_devices, CaptureDevice, capture_device, list_devices_impl,
}

-- The names of the entries that have one.
abbrev pub names : List (Option (List ℕ)) → List (List ℕ)
names [] = []
names (none ∷ entries) = names entries
names (some name ∷ entries) = name ∷ names entries

-- Names that fit the buffers with the zero at their end.
abbrev pub IsName : List ℕ → Type 0
IsName name = length name < raw_socket_name_len

-- The listing of some names: no more than asked for, each once, each one of them, and all of them
-- unless the output is full.
pub record IsListing (max_devices : ℕ) (given output : List (List ℕ)) : Type 0 where
  pub bound : length output ≤ max_devices
  pub distinct : IsDistinct output
  pub real : All (λ name. Memᴰ name given) output
  pub complete : (length output ≡ max_devices) ⊎ All (λ name. Memᴰ name output) given

module _ (max_devices : ℕ) where
  -- The loop on the entries that are left, with what it has put out so far.
  record Extends (given before output : List (List ℕ)) : Type 0 where
    bound : length output ≤ max_devices
    distinct : IsDistinct output
    real : All (λ name. Memᴰ name before ⊎ Memᴰ name given) output
    kept : All (λ name. Memᴰ name output) before
    complete : (length output ≡ max_devices) ⊎ All (λ name. Memᴰ name output) given

  abbrev Among : List (List ℕ) → List (List ℕ) → List ℕ → Type 0
  Among before given name = Memᴰ name before ⊎ Memᴰ name given

  abbrev In : List (List ℕ) → List ℕ → Type 0
  In output name = Memᴰ name output

  unchanged-Extends :
      (given output : List (List ℕ))
      → length output ≤ max_devices
      → IsDistinct output
      → (length output ≡ max_devices) ⊎ All (In output) given
      → Extends given output output
  unchanged-Extends given output b d c = record {
    bound = b;
    distinct = d;
    real = All-intro (Among output given) output (λ name m. inl m);
    kept = All-intro (In output) output (λ name m. m);
    complete = c;
  }

  -- A name that is in the output already.
  known-Extends :
      (name : List ℕ) (given before output : List (List ℕ))
      → Memᴰ name before
      → Extends given before output
      → Extends (name ∷ given) before output
  known-Extends name given before output m x = record {
    bound = x.bound;
    distinct = x.distinct;
    real = All-intro (Among before (name ∷ given)) output (λ n k.
        elim (All-elim (Among before given) output x.real k) [
          | inl h ↦ inl h
          | inr h ↦ inr (Memᴰ.tail h)
        ]);
    kept = x.kept;
    complete = elim x.complete [
      | inl e ↦ inl e
      | inr h ↦ inr (All-elim (In output) before x.kept m, h)
    ];
  }

  -- A name that is put at the end of the output.
  new-Extends :
      (name : List ℕ) (given before output : List (List ℕ))
      → Extends given (before ++ name ∷ []) output
      → Extends (name ∷ given) before output
  new-Extends name given before output x = record {
    bound = x.bound;
    distinct = x.distinct;
    real = All-intro (Among before (name ∷ given)) output (λ n k.
        elim (All-elim (Among (before ++ name ∷ []) given) output x.real k) [
          | inl h ↦ elim (Mem-snoc before h) [ inl j ↦ inl j | inr e ↦ inr (Memᴰ.head e) ]
          | inr h ↦ inr (Memᴰ.tail h)
        ]);
    kept = All-intro (In output) before (λ n k. stays (Mem-snoc_front before name k));
    complete = elim x.complete [
      | inl e ↦ inl e
      | inr h ↦ inr (stays (Mem-snoc_last before name), h)
    ];
  }
    where
      stays : {n : List ℕ} → Memᴰ n (before ++ name ∷ []) → Memᴰ n output
      stays k = All-elim (In output) (before ++ name ∷ []) x.kept k

  list_loop-Extends :
      (entries : List (Option (List ℕ))) (output : List (List ℕ))
      → All IsName (names entries)
      → length output ≤ max_devices
      → IsDistinct output
      → Extends (names entries) output (list_loop max_devices entries output)
  unfolding list_loop add_device
  list_loop-Extends [] output fit b d = unchanged-Extends [] output b d (inr tt)
  list_loop-Extends (none ∷ rest) output fit b d =
      if_elim (Extends (names rest) output) (ltb (length output) max_devices)
        (λ e. list_loop-Extends rest output fit b d)
        (λ e.
          unchanged-Extends (names rest) output b d
            (inl (omega (arith, b, ltb→le (length output) max_devices e))))
  list_loop-Extends (some name ∷ rest) output (f, fit) b d =
      if_elim (Extends (name ∷ names rest) output) (ltb (length output) max_devices)
        (λ e.
          added e (is_listed name output) (is_listed-Found name output)
            (list_loop-Extends rest output fit) (list_loop-Extends rest (output ++ name ∷ []) fit))
        (λ e.
          unchanged-Extends (name ∷ names rest) output b d
            (inl (omega (arith, b, ltb→le (length output) max_devices e))))
    where
      Step : List (List ℕ) → Type 0
      Step o =
          length o ≤ max_devices
          → IsDistinct o
          → Extends (names rest) o (list_loop max_devices rest o)

      copied : List (List ℕ)
      copied = output ++ copied_name raw_socket_name_len name ∷ []

      added :
          ltb (length output) max_devices ≡ true
          → (c : Bool) → Found name output c
          → Step output
          → Step (output ++ name ∷ [])
          → Extends
              (name ∷ names rest)
              output
              (list_loop max_devices rest (if c then output else copied))
      added e true m ih ih' = known-Extends name (names rest) output _ m (ih b d)
      added e false n ih ih' =
          subst
            (λ (k : List ℕ).
              Extends (name ∷ names rest) output (list_loop max_devices rest (output ++ k ∷ [])))
            (sym (take-short 255 name (omega (arith, f))))
            (new-Extends name (names rest) output _ (
              ih'
                (omega
                  (arith, length-append output (name ∷ []), ltb→lt (length output) max_devices e))
                (IsDistinct-snoc output name d n)))

clamped :
    (n : ℕ)
    → (if ltb capture_max_devices n then capture_max_devices else n) ≡ min n capture_max_devices
clamped n = ground arith

raw_socket_list_devices-some :
    (k : ℕ) (entries : List (Option (List ℕ)))
    → 0 < k
    → raw_socket_list_devices true k (some entries) ≡ some (list_loop k entries [])
unfolding raw_socket_list_devices
raw_socket_list_devices-some k entries pos =
    let e : (k == 0) ≡ false = ground (arith, pos) in rw (e) refl

abbrev plain : List ℕ → CaptureDevice
plain name = record { name = name; description = [] }

map-capture_device :
    (output : List (List ℕ)) → All IsName output → map capture_device output ≡ map plain output
map-capture_device [] h = refl
map-capture_device (x ∷ xs) (f, h) =
    ap₂ ◌∷◌ (ap plain (take-short 255 x (omega (arith, f)))) (map-capture_device xs h)

-- The listing of the devices that `list_devices_impl` gives, if at least one is asked for and
-- `getifaddrs` answers with names that fit the buffers: it is made, and without descriptions; it
-- has no more names than were asked for, nor than 32; no name is in it twice, each is one of the
-- entries' names, and each of those is in it unless it is full.
pub list_devices_impl-IsListing :
    (max_devices : ℕ) (entries : List (Option (List ℕ)))
    → 0 < max_devices
    → All IsName (names entries)
    → (output : List (List ℕ)) × (list_devices_impl max_devices (some entries)
        ≡ some (map (λ name. record { name = name; description = [] }) output))
      × IsListing (min max_devices capture_max_devices) (names entries) output
unfolding list_devices_impl
list_devices_impl-IsListing max_devices entries pos fit = (
  output,
  ap
        (λ (k : ℕ). elim (raw_socket_list_devices true k (some entries)) [
          | none ↦ none
          | some found ↦ some (map capture_device found)
        ])
        (clamped max_devices)
      ∙ ap
          (λ (o : Option (List (List ℕ))). elim o [
            | none ↦ none
            | some found ↦ some (map capture_device found)
          ])
          (raw_socket_list_devices-some m entries (omega (arith, pos)))
      ∙ ap some (map-capture_device output short),
  record { bound = x.bound; distinct = x.distinct; real = real; complete = x.complete },
)
  where
    m : ℕ
    m = min max_devices capture_max_devices

    output : List (List ℕ)
    output = list_loop m entries []

    x : Extends m (names entries) [] output
    x = list_loop-Extends m entries [] fit (omega arith) tt

    real : All (λ name. Memᴰ name (names entries)) output
    real =
        All-intro (λ name. Memᴰ name (names entries)) output
          (λ name k. elim (All-elim (Among m [] (names entries)) output x.real k) [
            | inl h ↦ elim h [ ]
            | inr h ↦ h
          ])

    short : All IsName output
    short = All-intro IsName output (λ name k.
        All-elim IsName (names entries) fit (All-elim (λ n. Memᴰ n (names entries)) output real k))
