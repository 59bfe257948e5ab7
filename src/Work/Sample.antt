-- ===== src/Work/Sample.antt =====
-- A smart pointer that meets `IsSmartPtr`, for examples and tests.
use boost_job.Common.{
  ◌<◌, ◌+◌, ◌-◌, ◌%◌, ◌^◌, ◌≡◌, refl, ap, ◌∙◌, ◌≢◌, inl, inr, ◌⊎◌, false, Option, none, some, arith,
  ◌==◌, if◌then◌else◌, ◌>>=◌,
}
use boost_job.Work.{
  Ptr, null, Work, Heap, write, intrusive_ptr_add_ref, deallocate, intrusive_ptr_release, SmartPtr,
  IsSmartPtr,
}
use boost_job.Work.Refs.{load_lem, write_self}

unfoldable pub plain : SmartPtr
plain = record {
  copy = λ p h. if p == null then some h else intrusive_ptr_add_ref p h;
  drop = λ p h. if p == null then some h else intrusive_ptr_release (λ _ g. some g) p h;
}

not_null : (p : Ptr) → p ≢ null → (p == null) ≡ false
not_null p ne = ground arith

deallocate_end :
    (d : Ptr → Heap → Option Heap) (p : Ptr) (g : Heap) (w : Work)
    → p ≢ null
    → d null g ≡ some g
    → g p ≡ some w
    → w.nxt ≡ null
    → deallocate d p g ≡ some (write g p none)
unfolding deallocate
deallocate_end d p g w ne stop e last =
    rw (load_lem g p ne, e) (ap (λ q. (d q g >>= λ h. some (write h p none))) last ∙ rw stop)

plain-drop_object :
    (p : Ptr) (h : Heap) (w : Work)
    → p ≢ null
    → h p ≡ some w
    → ((1 < w.use_count) × (w.use_count < 2 ^ 64)) ⊎ (w.nxt ≡ null)
    → plain.drop p h ≡ intrusive_ptr_release plain.drop p h
unfolding plain intrusive_ptr_release
plain-drop_object p h w ne e (inl (more, small)) = rw (not_null p ne, load_lem h p ne, e, left)
  where
    left : ((w.use_count + 2 ^ 64 - 1) % 2 ^ 64 == 0) ≡ false
    left = ground arith
plain-drop_object p h w ne e (inr last) =
    rw (not_null p ne, load_lem h p ne, e) (rw (ends (λ _ g. some g) refl, ends plain.drop refl))
  where
    after : Heap
    after = write h p (some (record w { use_count = (w.use_count + 2 ^ 64 - 1) % 2 ^ 64 }))

    ends :
        (d : Ptr → Heap → Option Heap)
        → d null after ≡ some after
        → deallocate d p after ≡ some (write after p none)
    ends d stop = deallocate_end d p after _ ne stop (write_self _ _ _) last

pub plain-IsSmartPtr : IsSmartPtr plain
unfolding plain
plain-IsSmartPtr = record {
  copy_null = λ h. refl;
  copy_object = λ p h ne. rw (not_null p ne);
  drop_null = λ h. refl;
  drop_object = plain-drop_object;
}
