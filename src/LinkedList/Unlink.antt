-- ===== src/LinkedList/Unlink.antt =====
-- What UPKLIST_UNLINK of upk_types.h does at the front of a list and behind another node.
use upkeeper.Prelude.{◌+◌, ◌-◌, ◌%◌, ◌^◌, ◌≡◌, ◌≢◌, refl, some, none}
use upkeeper.Prelude.{◌==◌, if◌then◌else◌, ne→==_false}
use upkeeper.LinkedList.Macros.{null, Node, UpkList, update, unlink}

module _ {ℓ} {A : Type ℓ} (l : UpkList A) (n : Node A) where
  pub unlink-first :
      l.prevp ≡ null
      → l.thisp ≢ null
      → l.cells l.thisp ≡ some n
      → unlink l
        ≡ some (record l {
          head = l.nextp;
          tail = if l.nextp == null then null else l.tail;
          prevp = null;
          thisp = null;
          cells = update l.cells l.thisp none;
          count = (l.count + 2 ^ 32 - 1) % 2 ^ 32;
        })
  unfolding unlink
  unlink-first p t c = rw (ne→==_false l.thisp 0 t, p, c) refl

  pub unlink-behind :
      (m : Node A)
      → l.prevp ≢ null
      → l.thisp ≢ null
      → l.thisp ≢ l.prevp
      → l.cells l.prevp ≡ some m
      → l.cells l.thisp ≡ some n
      → unlink l
        ≡ some (record l {
          tail = if l.nextp == null then l.prevp else l.tail;
          thisp = null;
          cells = update (update l.cells l.prevp (some (record m { next = l.nextp }))) l.thisp none;
          count = (l.count + 2 ^ 32 - 1) % 2 ^ 32;
        })
  unfolding unlink
  unlink-behind m p t d b c =
      rw (ne→==_false l.thisp 0 t, ne→==_false l.prevp 0 p, b, ne→==_false l.thisp l.prevp d, c)
        refl
