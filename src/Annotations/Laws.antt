-- ===== src/Annotations/Laws.antt =====
-- What GetAt finds.
use guicpp.Base.{◌≡◌, arith}
use guicpp.CType.{CType}
use guicpp.Annotations.{Annotation, AnnotationType, at2, annotations, entries, get_at}

-- At<A, B, T> and At<B, A, T> give the same answer to every lookup with every default, also where
-- the lookup is ambiguous.
pub get_at-swap :
    (a b : Annotation) (t : CType) (lookup : AnnotationType) (default : Annotation)
    → get_at (annotations (at2 a b t)) lookup default
      ≡ get_at (annotations (at2 b a t)) lookup default
unfolding get_at entries annotations
get_at-swap a b t lookup default = ground arith
