-- ===== src/Lib.antt =====
-- Verification of drivers from Windows on ARM for the RK3576: the queues of the Ethernet driver
-- drivers/net/dwc_eqos, and the SD host drivers drivers/sd/dwcmshc and drivers/sd/dwcsdhc.
--
-- The driver and the device share two rings of descriptors in memory, one to receive and one to
-- transmit. The framework NetAdapterCx shares with the driver, for each queue, a ring of packets
-- and a ring of fragments (buffers), and calls the driver's callbacks. Each ring is cut into
-- regions by indices, and each party moves its own.
--
-- Base and its children: Boolean tests on the native numbers, machine words with their wrap-around
-- (u16, u32, u64), bit fields, memories as functions, the bitwise operators through arithmetic
-- (Bits) and single bits of a word (Flags).
--
-- Net/Adapter.antt: the types of NetAdapterCx. Its functions NetRingIncrementIndex and
-- NetRingAdvanceIndex, and the widths of two bit fields, are the parameter NetAdapter; IsNetAdapter
-- states what the framework documents of them.
--
-- Net/Queue.antt: queue_common.h and queue_common.cpp (QueueDescriptorCount is descriptor_count,
-- QueueDescriptorAddressToIndex is address_to_index). Net/Index.antt: the index arithmetic with
-- the mask. Net/Ring.antt: distances round a ring.
--
-- Net/Rx: rxqueue.cpp. Types.antt has the state (RxQueueContext is RxQueue, with the memory and
-- the registers that it points to), Packet.antt the body of the first loop of RxQueueAdvance,
-- Advance.antt the callbacks: RxQueueStart, RxQueueAdvance and RxQueueCancel are start, advance
-- and cancel. Inv.antt has the invariant, Steps.antt the turns of RxQueueAdvance, device and
-- NetAdapterCx up to a cancellation, Received.antt and Laws.antt the callbacks;
-- the other files have the lemmas on each loop.
--
-- Net/Tx: txqueue.cpp. Types.antt has the state and the three forms of a descriptor, Put.antt what
-- is filled for one packet, Advance.antt the callbacks TxQueueStart, SkipIgnorePackets,
-- TxQueueAdvance, TxQueueCancel and TxQueueStop (start, skip_ignore_packets, advance, cancel,
-- stop_queue). Written.antt and Fit.antt are about runs of descriptors, Whole.antt about one
-- packet, Fill.antt and Collect.antt about the two loops, Laws.antt about the callbacks.
--
-- Net/Device: device.cpp. Types.antt has the members of DeviceContext that interrupts use, with what
-- was stored in the registers; Interrupts.antt has the interrupt routine (DeviceInterruptIsr is
-- interrupt_isr), a turn of the loop of its deferred part in pieces, one for each lock (dpc_take,
-- dpc_handle, dpc_rearm), and the
-- functions that set a queue to be notified in their two halves, one for each lock; Link.antt has the reset, the configuration for the
-- link, the addresses and the receive filter. What the status registers answer are arguments.
-- Turns.antt, Waiting.antt, Told.antt and Notified.antt are about all orders of these pieces, with
-- overlapping runs of the deferred part, Reset.antt about
-- the reset, Config.antt about the configuration.
--
-- Sd/Rockchip.antt: drivers/sd/dwcmshc/rockchip_ops.cpp (MshcRk3576SetPhase is set_phase,
-- MshcRockchipSetClock is set_clock; whether the register can be mapped, and the crash dump mode,
-- are arguments). Sd/Rate.antt is about the rate that is chosen. Sd/Tuning.antt has the choice of the
-- sample phase in MshcRockchipExecuteTuning (tune), where the outcome of trying each phase is a
-- parameter; Sd/Phases.antt is about its first loop, Sd/Sample.antt about the choice.
--
-- Sd/Mshc: drivers/sd/dwcmshc/dwcmshc.cpp and dwcmshc.h. Types.antt has the state: MSHC_EXTENSION is
-- Host, with the registers, the requests by their addresses, a memory of words, and the list of the
-- requests that were handed to the port driver; Fields.antt has the numbers of the registers' bits.
-- A register holds what was written, but a register that the controller changes by itself is read
-- through the parameter device, which gives the answer to the n-th such read; the word that was
-- read is then what the register holds. The masks of the port driver, SDPORT_EVENT and
-- SDPORT_ERROR, are records with a field for each bit that the driver names (EventSet, ErrorSet),
-- since their values are not in the repository. The functions of the platform
-- (MSHC_PLATFORM_OPERATIONS) are the record Platform.
-- Events.antt translates interrupt bits and events, Registers.antt polls and masks, Bus.antt sets
-- voltage, clock, width, speed and tuning, Idmac.antt makes the descriptor table, Transfers.antt
-- moves data, Commands.antt sends commands, Requests.antt ends requests (MshcRequestDpc is
-- request_dpc, MshcCompleteRequest is complete_request), Interrupt.antt is the interrupt handler, Response.antt reads the response.
-- The operations take the same names as in the source, without the prefix Mshc. Round.antt,
-- Polls.antt, Clock.antt, Table.antt, Chain.antt, Word.antt, Pio.antt, Rounds.antt, Arrival.antt,
-- Ends.antt and Handle.antt are about them.
--
-- Sd/Sdhc: drivers/sd/dwcsdhc/dwcsdhc.cpp and dwcsdhc.h, the host of the eMMC. Types.antt has the
-- state: SDHC_EXTENSION is SdhcExtension, with the stores to registers in their order, the count of
-- reads, the requests by their addresses and a memory of bytes; the types of the port driver are
-- those of Sd/Mshc/Types.antt. What a register answers is the parameter device, a function of all
-- stores and of the number of reads before, so a theorem holds of every controller. The clock
-- register of the SoC is one more register, if it is mapped. Registers.antt has stores, reads and
-- the loops that wait; Bus.antt, Clock.antt and Signals.antt have the operations of the bus and
-- Operations.antt their dispatch; Interrupt.antt is the interrupt handler, Requests.antt the
-- deferred handler and the end of a request, Adma.antt the descriptor table, Port.antt the data
-- port, Commands.antt commands and transfers, Divisor.antt SdhcCalcClockFrequency, whose call is
-- commented out. The operations take the names of the source, without the prefix Sdhc. The other
-- files are about them: Reads.antt and Outcome.antt about waiting and SdhcSetClock, Divider.antt
-- about the divider of the SoC, Gated.antt, Kept.antt and Steps.antt about the driver's calls in any
-- order, Notices.antt about the interrupt handler, Arrivals.antt about the deferred one, Table.antt
-- about the descriptor table, Copied.antt and Blocks.antt about blocks by words, Word.antt about the
-- command register.
--
-- A loop takes fuel, and a result is an Option whose none stands for fuel that has run out. The
-- fuel is the number of descriptors or of the elements of the ring that the loop walks round, or,
-- for the buffers of a fragment, its length and one more round; the theorems say that the callback
-- returns, so the fuel is enough. The polls of the SD hosts have the bounds of the source, and the
-- loop over a scatter-gather element has its length. Only complete_request takes a fuel of its own:
-- it calls itself again as often as the card is busy once more after it was idle; in a DPC, which
-- queues the work item instead, a fuel of one is enough. In TxQueueCancel what the polls of the device answer are
-- arguments. The loop that waits for the flush has no bound in the source: its fuel is enough if the
-- device ends the flush, which is a hypothesis of the theorem.
--
-- Debug-only members and assertions, tracing, the notification callbacks, and the creation and
-- clean-up of the queues are not modelled: they do not change what the queues hold. Memory order
-- between driver and device is taken to be that of the source. Of dwcmshc, the requests
-- that it issues itself and what needs them (MshcResetHost, MshcSetSignalingVoltage, the tuning
-- command), and the tables of platforms are not
-- modelled; of both SD hosts, waiting times, tracing, capabilities and initialization are not; nor
-- are the other drivers. The loops of dwcsdhc over blocks and elements take the length as fuel.
pub mod Base
pub mod Net
pub mod Sd
