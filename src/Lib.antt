-- ===== src/Lib.antt =====
-- The firmware of a robot that pushes cans off a table, and the library with which a host reads and
-- writes the robot's data. This library models the firmware's own code under teensy/usb_rawhid.
--
-- The parts. example.c samples the sensors and, when the can search program runs, reports them as
-- signals to the state machine of can_search.c, whose timers a timer interrupt drives and which
-- sets the motors through a callback. The host talks to the robot by packets of kowhai_protocol.c,
-- which kowhai_protocol_server.c answers; what it reads and writes are trees, described by the node
-- lists of example.c and accessed by kowhai.c.
--
-- CanSearch models can_search.c and can_search.h. The record Search holds the file's variables, and
-- a list of the outputs: the calls of the motor callback (set_motors_callback; a call while it is
-- null is an output too) and the busy waits. Motors has set_motors_*, Handlers one function per
-- state handler (search_wall, push, reverse, ...) and Machine the rest: transition,
-- can_search_init, can_search_signal and can_search_tick. C's transition calls can_search_signal,
-- which calls the handler, which calls transition: signal_at takes the depth of these calls as
-- fuel, and call_depth, three: a signal from outside leads to one transition, and that one's entry
-- and exit to none. Floating point is a parameter, the record Floats, with two laws: a uint8_t is
-- below 256, and a whole number below 256 is read back as it was converted. An int counter has no
-- upper bound here. The tick runs in an interrupt in the firmware; here a call is over when the
-- next one starts. Diagram states the state diagram that the handlers implement, Invariant what a
-- live search is, Runs sequences of calls, Timing, Ticks and Deadline what ticks do, Edge the
-- reaction to the table's edge.
--
-- Kowhai models kowhai/kowhai.c and kowhai/kowhai.h. A pointer into a descriptor is the list of the
-- nodes from there on, a tree's data a list of bytes, and `none` an access outside these. Size has
-- the functions on sizes, Lookup has get_node and kowhai_get_node, Access kowhai_read, kowhai_write
-- and the typed accesses. The loops take fuel, which their callers give as the number of the nodes
-- left; each round takes a node, so it cannot run out. An int does not overflow, and a value is a
-- bit pattern of the node type's width. Forest has the well-formed descriptors as trees, Measure
-- their sizes, Resolve what a path means in one, independently of the node lists.
--
-- Protocol models kowhai/kowhai_protocol.c and kowhai/kowhai_protocol.h. A packet is the list of its
-- packet_size bytes. Parse has the parse_ functions and kowhai_protocol_parse, Create
-- kowhai_protocol_create and Overhead kowhai_protocol_get_overhead, with the size of a pointer as a
-- parameter. layout_of groups the commands that the switches of these functions treat alike. The
-- payload's union is a data type by the member that was stored. Sound says which payloads a command
-- can carry and gives their bytes, Written, RoundTrip and Short compare these with the code, Checked
-- and Room are about the size checks of reading and of writing.
--
-- Server models kowhai/kowhai_protocol_server.c and kowhai_protocol_server.h. The record Server
-- holds the struct and a log of the effects: the packets sent and the calls of the callbacks. Init
-- has kowhai_server_init, Chunks the loops that send an answer in several packets (_send_id_list,
-- _send_string_list, kowhai_server_process_event), Write, Read and Call the cases of
-- kowhai_server_process_packet for trees and functions, and Process the function itself. `none` is
-- a fault: an access outside the memory, bytes sent that were not written, or a loop that does not
-- end. The size of a pointer and what the callbacks do to the trees are parameters; they do nothing
-- else. A pointer to a node is its address. Each tree has memory of its own, and the request is not
-- in the packet buffer; the firmware has it there, where an answer puts the same symbols and bytes.
-- The loop that sends takes fuel, one more than the bytes to send: each round but the last sends
-- one at least. Received says what a receiver gets from the packets, Delivered, Reads, Descriptors
-- and Results what is sent, Done and Sequence what a write does, Keeps what no request changes, and
-- the files of Process how whole requests are answered.
--
-- Firmware models example.c: Trees the descriptors, with the numbers of symbols.h, Sensors
-- check_sensors on the list of the six sensors, Robot the structs and registers as one record,
-- Drive what sets registers (motor_set_, do_beep, node_post_write, stay_on_table), Program
-- step_program and Callbacks function_called and the timer interrupt. The calls that the search
-- makes of its callback are carried out after each call of the search, in their order. What the
-- processor's division leaves for a zero divisor is a parameter, and so are the pins and
-- conversions that are read. Events has the order of steps, interrupts, writes and function calls
-- as a list, Steps and Runs what they keep, Edge what the motors do at the table's edge, and Main
-- has the server that main sets up.
--
-- Not modelled: the rest of main of example.c, its adc_read and the registers of its bootloader,
-- and that the server's trees are its structs; analog.c, usb_rawhid.c and kowhai/kowhai_log.c,
-- which are hardware access and output; the older copy of kowhai under diagnostic; the programs for
-- the host.
pub mod Prelude
pub mod CanSearch
pub mod Kowhai
pub mod Protocol
pub mod Server
pub mod Firmware
