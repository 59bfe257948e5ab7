-- ===== src/Work/Refs.antt =====
-- What a copy and a drop of a `ptr_t` do to a live work item.
use boost_job.Common.{
  ℕ, suc, ◌+◌, ◌-◌, ◌%◌, ◌^◌, ◌<◌, ◌≡◌, refl, ap, ◌∙◌, ◌≢◌, inl, inr, none, some, arith,
}
use boost_job.Work.{
  Ptr, null, work, Heap, write, load, intrusive_ptr_add_ref, deallocate, intrusive_ptr_release,
  SmartPtr, IsSmartPtr,
}

pub write_self : (h : Heap) (p : Ptr) (w : _) → write h p w p ≡ w
unfolding write
write_self h p w = ground arith

pub write_ne : (h : Heap) (p q : Ptr) (w : _) → q ≢ p → write h p w q ≡ h q
unfolding write
write_ne h p q w ne = ground arith

pub load_lem : (h : Heap) (p : Ptr) → p ≢ null → load h p ≡ h p
unfolding load
load_lem h p ne = ground arith

module _ {s : SmartPtr} (law : IsSmartPtr s) where
  -- A copy adds one reference.
  pub copy_lem :
      (h : Heap) (p : Ptr) (n : ℕ) (q : Ptr) (f : ℕ)
      → p ≢ null
      → h p ≡ some (work n q f)
      → n + 1 < 2 ^ 64
      → s.copy p h ≡ some (write h p (some (work (suc n) q f)))
  unfolding intrusive_ptr_add_ref
  copy_lem h p n q f ne e small =
      let count : (n + 1) % 2 ^ 64 ≡ suc n = omega arith in
      law.copy_object p h ne
      ∙ rw (load_lem h p ne, e) (ap (λ k. some (write h p (some (work k q f)))) count)

  -- A drop takes one reference away while others are left.
  pub drop_lem :
      (h : Heap) (p : Ptr) (n : ℕ) (q : Ptr) (f : ℕ)
      → p ≢ null
      → h p ≡ some (work (suc (suc n)) q f)
      → n + 2 < 2 ^ 64
      → s.drop p h ≡ some (write h p (some (work (suc n) q f)))
  unfolding intrusive_ptr_release
  drop_lem h p n q f ne e small =
      let count : (suc (suc n) + 2 ^ 64 - 1) % 2 ^ 64 ≡ suc n = omega arith in
      law.drop_object p h _ ne e (inl (omega arith, omega arith))
      ∙ rw (load_lem h p ne, e) (ground arith)

  -- The last drop destroys an item that links to none, and gives its storage back.
  pub drop_last :
      (h : Heap) (p : Ptr) (f : ℕ)
      → p ≢ null
      → h p ≡ some (work 1 null f)
      → s.drop p h ≡ some (write (write h p (some (work 0 null f))) p none)
  unfolding intrusive_ptr_release deallocate
  drop_last h p f ne e =
      law.drop_object p h _ ne e (inr refl)
      ∙ rw (load_lem h p ne, e, load_lem _ p ne, write_self, law.drop_null _)
