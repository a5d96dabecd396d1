-- ===== src/Lib.antt =====
-- usbd: block devices in user space, behind the network block device of the Linux kernel.
--
-- The kernel sends requests over a command stream. pkg/usbdlib reads them (req.go), hands them to a
-- pool of workers (reqproc.go) that call a device (dev.go), and sends replies (resp.go). The devices
-- are a RAM disk (pkg/devices/ramdisk), a file (pkg/devices/filedisk), a deduplicating disk
-- (pkg/devices/dedupdisk) and a disk over an object store with a cache of local files
-- (pkg/devices/objstore). pkg/util has the helpers.
--
-- Which file models what:
--   Usbdlib/Header       the constants that pkg/usbdlib/nbdutil_linux.go takes from C headers
--   Usbdlib/Buffer       getWriteBuffer of req.go and GetReadBuffer of resp.go
--   Usbdlib/Request      request of req.go: decode is Decode, encode is Encode of req_test.go
--   Usbdlib/Response     response of resp.go: set_response is Set, write_response is Write
--   Usbdlib/Device       the interface of dev.go, and the contract of a device
--   Usbdlib/Execute      execute of reqproc.go, the effect of one request on a device
--   Usbdlib/Processor    readStrmWorker and reqIOWorker of reqproc.go, as a step relation on the queue,
--                        the running requests and the flush mutexes
--   Usbdlib/Kernel       nbdkern_linux.go: the module, and the choice of a free device
--   Usbdlib/Handler      nbdstrm.go: NewNbdHandler up to the start of the stream
--   Usbdlib/Stream       nbdstrm.go: setupSycalls and the clean-up of a stream
--   Usbdlib/Session      processRequests: the loop of readStrmWorker on a whole stream, and in
--                        Session/System all its goroutines as a step relation with any number of workers,
--                        for a client that waits for each reply
--   Ramdisk              RAMDisk of pkg/devices/ramdisk/ramdisk.go
--   Filedisk             FileDisk of pkg/devices/filedisk/filedisk.go
--   Dedupdisk/Stores     the interfaces of pkg/devices/dedupdisk/interfaces.go with their contract
--   Dedupdisk/Device     dedupDisk of pkg/devices/dedupdisk/dedupdisk.go
--   Dedupdisk/FileStore  fileBlockStore of pkg/devices/dedupdisk/impls/fileblkstore.go
--   Dedupdisk/LunMap     mmapLUNmap of pkg/devices/dedupdisk/impls/mmaplunmap.go
--   Dedupdisk/IdStore    pebbleIDStore of pkg/devices/dedupdisk/impls/pebbleidstore.go
--   Dedupdisk/Impls      the three stores as those of one device, as NewDedupDisk and dedupDiskFromCfg of
--                        cmd/usbdsrvd/dedup.go put them together
--   Objstore/Env         what pkg/devices/objstore calls: stow, sema, files, the clock
--   Objstore/SparseCopy  sparseCopy of pkg/devices/objstore/storeparams.go
--   Objstore/StoreParams storeParams of the same file
--   Objstore/Segment     segment of pkg/devices/objstore/segment.go
--   Objstore/Load        loadSegments of the same file
--   Objstore/Device      device of pkg/devices/objstore/device.go
--   Objstore/Options     the options of pkg/devices/objstore/options.go, and their checks in NewDevice
--                        and applyOpts of device.go
--   Objstore/Modes       the modes of pkg/devices/objstore/compress/mode.go and of encrypt/mode.go beside it
--   Objstore/Container   stow's container as an interface with laws
--   Objstore/Compress    compressedContainer of pkg/devices/objstore/compress/stow.go
--   Objstore/Encrypt     encryptedContainer of pkg/devices/objstore/encrypt/stow.go, and ValidAESKey
--   Objstore/Wrapped     the layers that applyOpts of device.go puts round the store's container
--   Server/Config        mustGetObjStoreConfig and recConcurFlush of cmd/usbdsrvd/conf/parseargs.go
--   Server/Program       MustGetConfig of the same file, and NewBackingDevice of conf/bakdev.go
--   Server/Options       the options of osbdFromCfg of cmd/usbdsrvd/osbd.go
--   Server/Served        these two and NewDevice, one after the other
--   Util/Numerals        bases of strconv and encoding/hex, as far as headers and names use them
--   Util/Zeros           pkg/util/zeros.go
--   Util/Strms           the readers, writers and closers of pkg/util/strms
--   Base                 numbers, lists, Go's slices, bytes and files, errors, and the state monad
--   Examples             the theorems at concrete inputs
--
-- Go code in the model: an int64 is an integer with its wrap-around written out (int64, add64); an
-- error is one of a few kinds and loses its text; a panic is `panic` of Go; a method that changes a
-- state and may fail is an Exec, and what it changed before an error stays changed.
--
-- Fuel: ZeroFill doubles its index from 1, so it runs on as many rounds as there are bytes. The reader
-- of a session on a whole stream takes at least one byte with each request, so it runs on one round
-- more than the stream has bytes. All other loops are structural: on the bytes, on the segments that
-- are left, on the tries that are left.
--
-- The deduplicating disk never frees a block, so its theorems count the blocks that are still to be
-- written, and ask that the block file ends below 2^63 bytes.
--
-- Numbers are printed with room for 64 digits, as FormatInt has; 13 of base 36 or 19 of base 10 are enough.
--
-- A device does what it is asked as one step: the calls for one request are not interleaved with those
-- for another, also where several workers run. A segment's flush that uploads from a buffer gives its
-- file lock back early, so that a write may mark the segment dirty again during the upload; that is
-- not in the model of Objstore/Segment, whose methods run one after the other.
--
-- Not modelled: the buffering of streams and the end of the connection; the goroutine that waits in
-- the kernel, in nbdstrm.go; the concurrent use of one device, other than the order of locks in
-- Processor and the order of replies in Session; the goroutine of flushWorker in pkg/devices/objstore.
-- The compressors, ciphers and random numbers that it calls, the store's driver, the kernel's files
-- and the module loader are parameters, with what is relied on as named laws, and so are the database
-- and the hash of the ID store: a deduplicating disk cannot tell two blocks with one hash apart, so
-- its theorems are about blocks of which no two different ones have the same. The LZ4 store of
-- pkg/devices/dedupdisk/impls is experimental code over a C library, and PutBlockAt of the block store
-- beside it serves that store alone. The flags, capacities and JSON of cmd/usbdsrvd are taken as
-- parsed; its other devices are left out so far.
pub mod Base
pub mod Util
pub mod Usbdlib
pub mod Filedisk
pub mod Ramdisk
pub mod Objstore
pub mod Dedupdisk
pub mod Server
pub mod Examples
