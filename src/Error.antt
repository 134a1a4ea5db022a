-- ===== src/Error.antt =====
-- kernel/error.hpp: the error codes. A `WithError<T>` is read only where its error is `kSuccess`,
-- so it is the sum of the two; an `Error` with nothing else is a `Result` of no value.
pub data Error : Type 0 where
  full empty no_enough_memory index_out_of_range host_controller_not_halted invalid_slot_id : Error
  port_not_connected invalid_endpoint_number transfer_ring_not_set already_allocated : Error
  not_implemented invalid_descriptor buffer_too_small unknown_device : Error
  no_corresponding_setup_stage transfer_failed invalid_phase unknown_xhci_speed_id : Error
  no_waiter no_pci_msi unknown_pixel_format no_such_task invalid_format frame_too_small : Error
  invalid_file is_directory no_such_entry free_type_error : Error

pub data WithError {ℓ} (A : Type ℓ) : Type ℓ where
  ok : A → WithError A
  err : Error → WithError A
