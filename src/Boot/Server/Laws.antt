-- ===== src/Boot/Server/Laws.antt =====
-- The software cache of the `booter`.
use widuino.Base.{ℕ, List, [], ◌∷◌, Option, none, some, ◌≡◌, refl, ap, ◌∙◌}
use widuino.Base.{All, ◌==◌, if◌then◌else◌}
use widuino.Base.Dict.{lookup, bytes_key, nat_key, lookup-insert_self, lookup-All, All-insert}
use widuino.Base.Outcome.{Outcome, ok, err, panic, ◌>>=◌}
use widuino.Boot.Hex.{read_hex, HexError}
use widuino.Boot.Hex.Laws.{IsSoftware, read_hex-IsSoftware}
use widuino.Boot.FilePath.{join, dir}
use widuino.Boot.Server.{Booter, FileName, Files, add, watch, BootError}
use widuino.Boot.Server.{
  store_software, read_opened, read_hex_file, from_cache, cached_software, find_named,
  find_software,
}
use mathlib.Core.Option

-- Every image in the cache is whole units of 16 bytes, 64 KB at most.
abbrev pub IsServing : Booter → Type 0
IsServing b = All (λ (x : FileName × List ℕ). IsSoftware x.1) b.software

-- What a lookup comes to: the same sketches and directory, and where it succeeds an image in the
-- cache, under the name looked up.
pub record IsFound (b : Booter) (file : FileName) (r : Booter × Outcome BootError (List ℕ))
    : Type 0 where
  pub sketches : r.0.sketch ≡ b.sketch
  pub directory : r.0.dir_name ≡ b.dir_name
  pub serving : IsServing b → IsServing r.0
  pub cached : (sw : List ℕ) → r.1 ≡ ok sw → lookup file r.0.software ≡ some sw

record IsRead (b : Booter) (file : FileName) (r : Booter × Outcome BootError (Unit {0}))
    : Type 0 where
  sketches : r.0.sketch ≡ b.sketch
  directory : r.0.dir_name ≡ b.dir_name
  serving : IsServing b → IsServing r.0
  stored : r.1 ≡ ok tt → (sw : List ℕ) × (lookup file r.0.software ≡ some sw)

store_software-IsRead :
    (file : FileName) (b : Booter) (rd : List ℕ) (r : Outcome HexError (List ℕ))
    → read_hex rd ≡ r
    → IsRead b file (store_software file b r)
store_software-IsRead file b rd (ok sw) e = record {
  sketches = refl;
  directory = refl;
  serving = λ v. All-insert IsSoftware file sw b.software (read_hex-IsSoftware rd sw e) v;
  stored = λ _. (sw, lookup-insert_self file sw b.software);
}
store_software-IsRead file b rd (err x) e = record {
  sketches = refl;
  directory = refl;
  serving = λ v. v;
  stored = λ p. cc;
}
store_software-IsRead file b rd panic e = record {
  sketches = refl;
  directory = refl;
  serving = λ v. v;
  stored = λ p. cc;
}

read_opened-IsRead :
    (file : FileName) (b : Booter) (contents : Option (List ℕ))
    → IsRead b file (read_opened file b contents)
read_opened-IsRead file b none = record {
  sketches = refl;
  directory = refl;
  serving = λ v. v;
  stored = λ p. cc;
}
read_opened-IsRead file b (some rd) = store_software-IsRead file b rd (read_hex rd) refl

from_read-IsFound :
    (b : Booter) (file : FileName) (b' : Booter) (r : Outcome BootError (Unit {0}))
    → IsRead b file (b', r)
    → IsFound b file (b', r >>= λ _. ok (Option.get_or (lookup file b'.software) []))
from_read-IsFound b file b' (ok tt) v =
    let (sw, e) = v.stored refl in
    record {
      sketches = v.sketches;
      directory = v.directory;
      serving = v.serving;
      cached = λ sw' p. e ∙ cc (p, ap (λ o. Option.get_or o []) e);
    }
from_read-IsFound b file b' (err x) v = record {
  sketches = v.sketches;
  directory = v.directory;
  serving = v.serving;
  cached = λ sw p. cc;
}
from_read-IsFound b file b' panic v = record {
  sketches = v.sketches;
  directory = v.directory;
  serving = v.serving;
  cached = λ sw p. cc;
}

read_hex_file-IsRead :
    (files : Files) (b : Booter) (file : FileName) → IsRead b file (read_hex_file files b file)
unfolding read_hex_file
read_hex_file-IsRead files b file =
    let v = read_opened-IsRead file (watch (add (dir file)) b) (files file) in
    record {
      sketches = v.sketches;
      directory = v.directory;
      serving = v.serving;
      stored = v.stored;
    }

pub read_hex_file-IsServing :
    (files : Files) (b : Booter) (file : FileName)
    → IsServing b
    → IsServing (read_hex_file files b file).0
read_hex_file-IsServing files b file v = (read_hex_file-IsRead files b file).serving v

from_cache-IsFound :
    (files : Files) (b : Booter) (file : FileName) (o : Option (List ℕ))
    → lookup file b.software ≡ o
    → IsFound b file (from_cache files b file o)
from_cache-IsFound files b file (some sw) e = record {
  sketches = refl;
  directory = refl;
  serving = λ v. v;
  cached = λ sw' p. e ∙ cc p;
}
from_cache-IsFound files b file none e =
    from_read-IsFound b file (read_hex_file files b file).0 (read_hex_file files b file).1
      (read_hex_file-IsRead files b file)

cached_software-IsFound :
    (files : Files) (b : Booter) (file : FileName) → IsFound b file (cached_software files b file)
unfolding cached_software
cached_software-IsFound files b file = from_cache-IsFound files b file (lookup file b.software) refl

cached_again :
    (files : Files) (b : Booter) (file : FileName) (sw : List ℕ)
    → lookup file b.software ≡ some sw
    → cached_software files b file ≡ (b, ok sw)
unfolding cached_software
cached_again files b file sw e = ap (from_cache files b file) e

-- What find_software promises: the invariant is kept, and an image that it returns is returned
-- again, with nothing read.
record IsSettled (files : Files) (b : Booter) (o : Option FileName)
    (r : Booter × Outcome BootError (List ℕ)) : Type 0 where
  sketches : r.0.sketch ≡ b.sketch
  serving : IsServing b → IsServing r.0
  again : (others : Files) (sw : List ℕ) → r.1 ≡ ok sw → find_named others r.0 o ≡ (r.0, ok sw)
  good : (sw : List ℕ) → IsServing b → r.1 ≡ ok sw → IsSoftware sw

find_named-IsSettled :
    (files : Files) (b : Booter) (o : Option FileName) → IsSettled files b o (find_named files b o)
find_named-IsSettled files b none = record {
  sketches = refl;
  serving = λ v. v;
  again = λ fs sw p. cc;
  good = λ sw v p. cc;
}
find_named-IsSettled files b (some []) = record {
  sketches = refl;
  serving = λ v. v;
  again = λ fs sw p. cc;
  good = λ sw v p. cc;
}
find_named-IsSettled files b (some (c ∷ file)) =
    let path = if c == b'/' then c ∷ file else join b.dir_name (c ∷ file) in
    let v = cached_software-IsFound files b path in
    record {
      sketches = v.sketches;
      serving = v.serving;
      again = λ fs sw p.
          ap
            (λ d.
              cached_software fs (cached_software files b path).0
                (if c == b'/' then c ∷ file else join d (c ∷ file)))
            v.directory
          ∙ cached_again fs (cached_software files b path).0 path sw (v.cached sw p);
      good = λ sw s p. lookup-All IsSoftware path _ (v.serving s) (v.cached sw p);
    }

-- A lookup keeps the cache in order, whatever it comes to.
find_software-IsServing :
    (files : Files) (b : Booter) (id : ℕ) → IsServing b → IsServing (find_software files b id).0
unfolding find_software
find_software-IsServing files b id v = (find_named-IsSettled files b (lookup id b.sketch)).serving v

-- When a cache in order yields an image, the image is whole units of 16 bytes and at most 64 KB, the
-- cache is in order afterwards, and the next request for it is answered alike, with no file read.
pub find_software-again :
    (files : Files) (b b' : Booter) (id : ℕ) (sw : List ℕ)
    → IsServing b
    → find_software files b id ≡ (b', ok sw)
    → IsSoftware sw × IsServing b' × ((others : Files) → find_software others b' id ≡ (b', ok sw))
unfolding find_software
find_software-again files b b' id sw v found = (
  settled.good sw v refl,
  settled.serving v,
  λ others.
      ap (λ m. find_named others b' (lookup id m)) settled.sketches ∙ settled.again others sw refl,
)
  where
    settled : IsSettled files b (lookup id b.sketch) (b', ok sw)
    settled = rw found at (find_named-IsSettled files b (lookup id b.sketch))
